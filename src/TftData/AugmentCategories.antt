-- ===== src/TftData/AugmentCategories.antt =====
-- The augment categories of common/tft_data.py.
use tft_stats_analytics.Base.{String, List, [], ◌∷◌}

abbrev row : String → String → String × String
row augment value = (augment, value)

-- `AUGMENT_CATEGORIES`
unfoldable pub augment_categories : List (String × String)
augment_categories =
    row "TFT10_Augment_CrashTestDummies" "standard"
    ∷ row "TFT10_Augment_GoingLong" "standard"
    ∷ row "TFT10_Augment_GoodForSomethingSilver" "standard"
    ∷ row "TFT10_Augment_HeroicGrabBag" "standard"
    ∷ row "TFT10_Augment_LittleBuddies" "standard"
    ∷ row "TFT11_Augment_AtWhatCost" "standard"
    ∷ row "TFT11_Augment_BloodBank" "standard"
    ∷ row "TFT11_Augment_Buildabud" "standard"
    ∷ row "TFT11_Augment_Calltochaos" "standard"
    ∷ row "TFT11_Augment_Epoch" "standard"
    ∷ row "TFT11_Augment_EpochPlus" "standard"
    ∷ row "TFT11_Augment_Prizefighter" "standard"
    ∷ row "TFT11_Augment_Reinfourcement" "standard"
    ∷ row "TFT11_Augment_Slammin" "standard"
    ∷ row "TFT11_Augment_Slammin_Plus" "standard"
    ∷ row "TFT11_Augment_TinyButDeadly" "standard"
    ∷ row "TFT16_Augment_UltraRapidFire" "standard"
    ∷ row "TFT17_Augment_AatroxCarry" "standard"
    ∷ row "TFT17_Augment_AhriGodAugment" "god"
    ∷ row "TFT17_Augment_AnimaSquad_Commander" "standard"
    ∷ row "TFT17_Augment_ApotheoticForge" "standard"
    ∷ row "TFT17_Augment_Arbiter_DivineAmendment" "standard"
    ∷ row "TFT17_Augment_AurelionSolGodAugment" "god"
    ∷ row "TFT17_Augment_AurelionSolGodAugment_BoonOfResurrection" "god"
    ∷ row "TFT17_Augment_Concentration" "standard"
    ∷ row "TFT17_Augment_DarkStar_WhiteHole" "standard"
    ∷ row "TFT17_Augment_EkkoGodAugment" "god"
    ∷ row "TFT17_Augment_EvelynnGodAugment" "god"
    ∷ row "TFT17_Augment_EvelynnGodAugment_BloodPrice" "god"
    ∷ row "TFT17_Augment_GragasCarry" "standard"
    ∷ row "TFT17_Augment_InvaderZed" "standard"
    ∷ row "TFT17_Augment_IvernMinionCarry" "standard"
    ∷ row "TFT17_Augment_JaxCarry" "standard"
    ∷ row "TFT17_Augment_KayleGodAugment" "god"
    ∷ row "TFT17_Augment_KayleGodAugment_Scrapper" "god"
    ∷ row "TFT17_Augment_LeonaCarry" "standard"
    ∷ row "TFT17_Augment_MordekaiserCarry" "standard"
    ∷ row "TFT17_Augment_NasusCarry" "standard"
    ∷ row "TFT17_Augment_PoppyCarry" "standard"
    ∷ row "TFT17_Augment_PrimordianPrismaticAugment" "standard"
    ∷ row "TFT17_Augment_PykeCarry" "standard"
    ∷ row "TFT17_Augment_SorakaGodAugment" "god"
    ∷ row "TFT17_Augment_ThreshGodAugment" "god"
    ∷ row "TFT17_Augment_Timebreaker_Timestream" "standard"
    ∷ row "TFT17_Augment_TourOfTheGalaxy" "standard"
    ∷ row "TFT17_Augment_VarusGodAugment_BoonOfStars" "god"
    ∷ row "TFT17_Augment_YasuoGodAugment_GoldenHex" "god"
    ∷ row "TFT17_Augment_YasuoGodAugment_MoreHexes" "god"
    ∷ row "TFT17_Augment_YasuoGodAugment_PaintedPower" "god"
    ∷ row "TFT6_Augment_BandOfThieves2" "standard"
    ∷ row "TFT6_Augment_BandOfThieves2Plus" "standard"
    ∷ row "TFT6_Augment_BandOfThieves2PlusPlus" "standard"
    ∷ row "TFT6_Augment_CalculatedLoss" "standard"
    ∷ row "TFT6_Augment_ClearMind" "standard"
    ∷ row "TFT6_Augment_CyberneticImplants2" "standard"
    ∷ row "TFT6_Augment_CyberneticUplink2" "standard"
    ∷ row "TFT6_Augment_Distancing" "standard"
    ∷ row "TFT6_Augment_Distancing2" "standard"
    ∷ row "TFT6_Augment_Diversify1" "standard"
    ∷ row "TFT6_Augment_Electrocharge1" "standard"
    ∷ row "TFT6_Augment_Electrocharge2" "standard"
    ∷ row "TFT6_Augment_ForceOfNature" "standard"
    ∷ row "TFT6_Augment_ForceOfNaturePlus" "standard"
    ∷ row "TFT6_Augment_GachaAddict" "standard"
    ∷ row "TFT6_Augment_HyperRoll" "standard"
    ∷ row "TFT6_Augment_ItemGrabBag1" "standard"
    ∷ row "TFT6_Augment_MakeshiftArmor1" "standard"
    ∷ row "TFT6_Augment_MakeshiftArmor2" "standard"
    ∷ row "TFT6_Augment_MaxLevel10" "standard"
    ∷ row "TFT6_Augment_OneTwoFive" "standard"
    ∷ row "TFT6_Augment_PandorasItems" "standard"
    ∷ row "TFT6_Augment_PortableForge" "standard"
    ∷ row "TFT6_Augment_Recombobulator" "standard"
    ∷ row "TFT6_Augment_SalvageBin" "standard"
    ∷ row "TFT6_Augment_SecondWind1" "standard"
    ∷ row "TFT6_Augment_SecondWind2" "standard"
    ∷ row "TFT6_Augment_SunfireBoard" "standard"
    ∷ row "TFT6_Augment_TheGoldenEgg" "standard"
    ∷ row "TFT6_Augment_ThriftShop" "standard"
    ∷ row "TFT6_Augment_TinyTitans" "standard"
    ∷ row "TFT6_Augment_TradeSector" "standard"
    ∷ row "TFT6_Augment_TradeSector2" "standard"
    ∷ row "TFT7_Augment_AFK" "standard"
    ∷ row "TFT7_Augment_BandOfThieves1" "standard"
    ∷ row "TFT7_Augment_BestFriends1" "standard"
    ∷ row "TFT7_Augment_BestFriends2" "standard"
    ∷ row "TFT7_Augment_BirthdayPresents" "standard"
    ∷ row "TFT7_Augment_ClutteredMind" "standard"
    ∷ row "TFT7_Augment_CursedCrown" "standard"
    ∷ row "TFT7_Augment_LategameSpecialist" "standard"
    ∷ row "TFT7_Augment_LivingForge" "standard"
    ∷ row "TFT7_Augment_LuckyGloves" "standard"
    ∷ row "TFT7_Augment_LuckyGlovesPlus" "standard"
    ∷ row "TFT7_Augment_UrfsGrabBag2" "standard"
    ∷ row "TFT8_Augment_SalvageBinPlus" "standard"
    ∷ row "TFT9_Augment_ArmyBuilding" "standard"
    ∷ row "TFT9_Augment_BardPlaybook1" "standard"
    ∷ row "TFT9_Augment_BigGrabBag" "standard"
    ∷ row "TFT9_Augment_BuildingACollectionPlusPlus" "standard"
    ∷ row "TFT9_Augment_Commander_Ascension" "standard"
    ∷ row "TFT9_Augment_Commander_PartialAscension" "standard"
    ∷ row "TFT9_Augment_Commander_RollingForDays" "standard"
    ∷ row "TFT9_Augment_Commander_TeamingUp1" "standard"
    ∷ row "TFT9_Augment_GreaterJeweledLotus" "standard"
    ∷ row "TFT9_Augment_HealingOrbsI" "standard"
    ∷ row "TFT9_Augment_HealingOrbsII" "standard"
    ∷ row "TFT9_Augment_HedgeFund" "standard"
    ∷ row "TFT9_Augment_HedgeFundPlus" "standard"
    ∷ row "TFT9_Augment_IronAssets" "standard"
    ∷ row "TFT9_Augment_JeweledLotus" "standard"
    ∷ row "TFT9_Augment_LearningFromExperience2" "standard"
    ∷ row "TFT9_Augment_Legend_HighEndSector" "standard"
    ∷ row "TFT9_Augment_LongTimeCrafting" "standard"
    ∷ row "TFT9_Augment_MissedConnections" "standard"
    ∷ row "TFT9_Augment_OneTwosThree" "standard"
    ∷ row "TFT9_Augment_PandorasItems2" "standard"
    ∷ row "TFT9_Augment_PandorasRadiantBox" "standard"
    ∷ row "TFT9_Augment_RiskyMoves" "standard"
    ∷ row "TFT9_Augment_RollTheDice" "standard"
    ∷ row "TFT9_Augment_SilverSpoon" "standard"
    ∷ row "TFT9_Augment_TiniestTitanPlus" "standard"
    ∷ row "TFT9_Augment_TonsOfStats" "standard"
    ∷ row "TFT9_Augment_YouHaveMyBow" "standard"
    ∷ row "TFT_Augment_AdvancedLoan" "standard"
    ∷ row "TFT_Augment_AdvancedLoanPlus" "standard"
    ∷ row "TFT_Augment_AnExaltedAdventure" "standard"
    ∷ row "TFT_Augment_ArcaneViktory" "standard"
    ∷ row "TFT_Augment_AuraFarming" "standard"
    ∷ row "TFT_Augment_AwakenedSoul" "standard"
    ∷ row "TFT_Augment_BacklineBlueprint" "standard"
    ∷ row "TFT_Augment_BeltOverflow" "standard"
    ∷ row "TFT_Augment_BirthdayReunion" "standard"
    ∷ row "TFT_Augment_BodyguardTraining" "standard"
    ∷ row "TFT_Augment_BoosterPack" "standard"
    ∷ row "TFT_Augment_BoosterPackPlus" "standard"
    ∷ row "TFT_Augment_BoxingLessons" "standard"
    ∷ row "TFT_Augment_BranchingOut" "standard"
    ∷ row "TFT_Augment_BranchingOutPlus" "standard"
    ∷ row "TFT_Augment_BronzeForLife2" "standard"
    ∷ row "TFT_Augment_BronzeForLifeI" "standard"
    ∷ row "TFT_Augment_ChargeTransfer1" "standard"
    ∷ row "TFT_Augment_ChargeTransfer2" "standard"
    ∷ row "TFT_Augment_ClimbTheLadder1" "standard"
    ∷ row "TFT_Augment_ClimbTheLadder2" "standard"
    ∷ row "TFT_Augment_ClockworkAccelerator" "standard"
    ∷ row "TFT_Augment_CognitiveOverload" "standard"
    ∷ row "TFT_Augment_CognitiveTax" "standard"
    ∷ row "TFT_Augment_CognitiveTaxPlus" "standard"
    ∷ row "TFT_Augment_ComebackStory" "standard"
    ∷ row "TFT_Augment_ComponentQuestBow" "standard"
    ∷ row "TFT_Augment_ComponentQuestRod" "standard"
    ∷ row "TFT_Augment_ComponentQuestSword" "standard"
    ∷ row "TFT_Augment_ComponentQuestTear" "standard"
    ∷ row "TFT_Augment_ConstructACompanion" "standard"
    ∷ row "TFT_Augment_Corrosion" "standard"
    ∷ row "TFT_Augment_CosmicRestart" "standard"
    ∷ row "TFT_Augment_CraftedCrafting" "standard"
    ∷ row "TFT_Augment_CryMeARiver" "standard"
    ∷ row "TFT_Augment_DeadlierCaps" "standard"
    ∷ row "TFT_Augment_Dhampyr1" "standard"
    ∷ row "TFT_Augment_Dummify" "standard"
    ∷ row "TFT_Augment_DuoQueue" "standard"
    ∷ row "TFT_Augment_EarlyLearning" "standard"
    ∷ row "TFT_Augment_EpicRolldown" "standard"
    ∷ row "TFT_Augment_ExclusiveCustomization" "standard"
    ∷ row "TFT_Augment_ExclusiveCustomization2" "standard"
    ∷ row "TFT_Augment_ExpectedUnexpectedness" "standard"
    ∷ row "TFT_Augment_Expedition" "standard"
    ∷ row "TFT_Augment_ExplosiveGrowth" "standard"
    ∷ row "TFT_Augment_ExplosiveGrowthPlus" "standard"
    ∷ row "TFT_Augment_FeedTheFlames" "standard"
    ∷ row "TFT_Augment_FeelingLucky" "standard"
    ∷ row "TFT_Augment_FindYourCenter" "standard"
    ∷ row "TFT_Augment_FiresalePlus" "standard"
    ∷ row "TFT_Augment_Flexible" "standard"
    ∷ row "TFT_Augment_ForgeAFriend" "standard"
    ∷ row "TFT_Augment_ForgeRod" "standard"
    ∷ row "TFT_Augment_ForgeSword" "standard"
    ∷ row "TFT_Augment_ForgedInStrength" "standard"
    ∷ row "TFT_Augment_ForwardThinking" "standard"
    ∷ row "TFT_Augment_FrontlineFoundation" "standard"
    ∷ row "TFT_Augment_FuriousBlows" "standard"
    ∷ row "TFT_Augment_GainGold" "standard"
    ∷ row "TFT_Augment_GiantAndMighty" "standard"
    ∷ row "TFT_Augment_GildedSteel" "standard"
    ∷ row "TFT_Augment_GlassCannonI" "standard"
    ∷ row "TFT_Augment_GlassCannonII" "standard"
    ∷ row "TFT_Augment_GoldenGamble" "standard"
    ∷ row "TFT_Augment_GoldenGamblePlus" "standard"
    ∷ row "TFT_Augment_GoldenGamblePlusPlus" "standard"
    ∷ row "TFT_Augment_GroupHug1" "standard"
    ∷ row "TFT_Augment_GroupHug2" "standard"
    ∷ row "TFT_Augment_GuardbreakerSpirit" "standard"
    ∷ row "TFT_Augment_HardCommit" "standard"
    ∷ row "TFT_Augment_HeavyIsTheCrown" "standard"
    ∷ row "TFT_Augment_HeroicGrabBagPlus" "standard"
    ∷ row "TFT_Augment_HeroicGrabBagPlusPlus" "standard"
    ∷ row "TFT_Augment_HighVoltage" "standard"
    ∷ row "TFT_Augment_HoldTheLine" "standard"
    ∷ row "TFT_Augment_HomeCooking" "standard"
    ∷ row "TFT_Augment_InfinityProtection" "standard"
    ∷ row "TFT_Augment_InvestedPlus" "standard"
    ∷ row "TFT_Augment_InvestedPlusPlus" "standard"
    ∷ row "TFT_Augment_ItemGargoyleStoneplate" "standard"
    ∷ row "TFT_Augment_ItemSpiritVisage" "standard"
    ∷ row "TFT_Augment_JustSlayer" "standard"
    ∷ row "TFT_Augment_KickStart" "standard"
    ∷ row "TFT_Augment_LateGameScaling" "standard"
    ∷ row "TFT_Augment_LegionOfThrees" "standard"
    ∷ row "TFT_Augment_Lineup" "standard"
    ∷ row "TFT_Augment_LuxurySubscription" "standard"
    ∷ row "TFT_Augment_MagicRoll" "standard"
    ∷ row "TFT_Augment_MagicRollMinus" "standard"
    ∷ row "TFT_Augment_MarksMan" "standard"
    ∷ row "TFT_Augment_MayTheFoursBeWithYou" "standard"
    ∷ row "TFT_Augment_MinMaxer" "standard"
    ∷ row "TFT_Augment_MirroredMonetization" "standard"
    ∷ row "TFT_Augment_Misfits" "standard"
    ∷ row "TFT_Augment_MoneyHungry" "standard"
    ∷ row "TFT_Augment_MoneyMonsoon" "standard"
    ∷ row "TFT_Augment_MuseumHeist" "standard"
    ∷ row "TFT_Augment_NoScoutNoPivot" "standard"
    ∷ row "TFT_Augment_OneBuffTwoBuff" "standard"
    ∷ row "TFT_Augment_PatienceIsAVirtue" "standard"
    ∷ row "TFT_Augment_Pilfer" "standard"
    ∷ row "TFT_Augment_PlotArmor" "standard"
    ∷ row "TFT_Augment_PowerUp" "standard"
    ∷ row "TFT_Augment_Replication" "standard"
    ∷ row "TFT_Augment_RestartMission" "standard"
    ∷ row "TFT_Augment_Retribution" "standard"
    ∷ row "TFT_Augment_SavingsAccount" "standard"
    ∷ row "TFT_Augment_SeraphimsStaff" "standard"
    ∷ row "TFT_Augment_ShimmerscaleEssence" "standard"
    ∷ row "TFT_Augment_SideEffects" "standard"
    ∷ row "TFT_Augment_SizeMatters" "standard"
    ∷ row "TFT_Augment_SliceOfLife" "standard"
    ∷ row "TFT_Augment_SmallGrabBag" "standard"
    ∷ row "TFT_Augment_SoloLeveling" "standard"
    ∷ row "TFT_Augment_SpeedyDoubleKill" "standard"
    ∷ row "TFT_Augment_SpreadingRoots" "standard"
    ∷ row "TFT_Augment_SpreadingRootsPlus" "standard"
    ∷ row "TFT_Augment_SubscriptionService" "standard"
    ∷ row "TFT_Augment_Survivor" "standard"
    ∷ row "TFT_Augment_SweetTreats" "standard"
    ∷ row "TFT_Augment_SwordOverflow" "standard"
    ∷ row "TFT_Augment_TacticiansKitchen" "standard"
    ∷ row "TFT_Augment_TheBaronsLair" "standard"
    ∷ row "TFT_Augment_TheDarkinBlade" "standard"
    ∷ row "TFT_Augment_TheGoldenDragon" "standard"
    ∷ row "TFT_Augment_TheTower" "standard"
    ∷ row "TFT_Augment_TheVidalion" "standard"
    ∷ row "TFT_Augment_TragicalBlade" "standard"
    ∷ row "TFT_Augment_TraitTree" "standard"
    ∷ row "TFT_Augment_TraitTreePlus" "standard"
    ∷ row "TFT_Augment_TreasureHunt" "standard"
    ∷ row "TFT_Augment_Trifecta1" "standard"
    ∷ row "TFT_Augment_Trifecta2" "standard"
    ∷ row "TFT_Augment_TwinGuardians" "standard"
    ∷ row "TFT_Augment_TwoMuchValue" "standard"
    ∷ row "TFT_Augment_TwoTanky" "standard"
    ∷ row "TFT_Augment_Unforgotten" "standard"
    ∷ row "TFT_Augment_UpwardMobility" "standard"
    ∷ row "TFT_Augment_UrfsGambit" "standard"
    ∷ row "TFT_Augment_WandOverflow" "standard"
    ∷ row "TFT_Augment_WarmogsBuckle" "standard"
    ∷ row "TFT_Augment_Warpath" "standard"
    ∷ row "TFT_Augment_Waverider" "standard"
    ∷ row "TFT_Augment_WeStickTogether" "standard"
    ∷ row "TFT_Augment_WinOut" "standard"
    ∷ row "TFT_Augment_WorthTheWaitGold" "standard"
    ∷ row "TFT_Augment_WorthTheWaitPrismatic" "standard"
    ∷ []
