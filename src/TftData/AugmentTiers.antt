-- ===== src/TftData/AugmentTiers.antt =====
-- The augment tiers of common/tft_data.py.
use tft_stats_analytics.Base.{String, List, [], ◌∷◌}

abbrev row : String → String → String × String
row augment value = (augment, value)

-- `AUGMENT_TIERS`
unfoldable pub augment_tiers : List (String × String)
augment_tiers =
    row "TFT10_Augment_CrashTestDummies" "gold"
    ∷ row "TFT10_Augment_GoingLong" "gold"
    ∷ row "TFT10_Augment_GoodForSomethingSilver" "silver"
    ∷ row "TFT10_Augment_HeroicGrabBag" "gold"
    ∷ row "TFT10_Augment_LittleBuddies" "gold"
    ∷ row "TFT11_Augment_AtWhatCost" "gold"
    ∷ row "TFT11_Augment_BloodBank" "gold"
    ∷ row "TFT11_Augment_Buildabud" "gold"
    ∷ row "TFT11_Augment_Calltochaos" "gold"
    ∷ row "TFT11_Augment_Epoch" "gold"
    ∷ row "TFT11_Augment_EpochPlus" "gold"
    ∷ row "TFT11_Augment_Prizefighter" "gold"
    ∷ row "TFT11_Augment_Reinfourcement" "gold"
    ∷ row "TFT11_Augment_Slammin" "gold"
    ∷ row "TFT11_Augment_Slammin_Plus" "gold"
    ∷ row "TFT11_Augment_TinyButDeadly" "gold"
    ∷ row "TFT16_Augment_UltraRapidFire" "gold"
    ∷ row "TFT17_Augment_AatroxCarry" "gold"
    ∷ row "TFT17_Augment_AhriGodAugment" "gold"
    ∷ row "TFT17_Augment_AnimaSquad_Commander" "gold"
    ∷ row "TFT17_Augment_ApotheoticForge" "gold"
    ∷ row "TFT17_Augment_Arbiter_DivineAmendment" "gold"
    ∷ row "TFT17_Augment_AurelionSolGodAugment" "gold"
    ∷ row "TFT17_Augment_AurelionSolGodAugment_BoonOfResurrection" "gold"
    ∷ row "TFT17_Augment_Concentration" "gold"
    ∷ row "TFT17_Augment_DarkStar_WhiteHole" "gold"
    ∷ row "TFT17_Augment_EkkoGodAugment" "gold"
    ∷ row "TFT17_Augment_EvelynnGodAugment" "gold"
    ∷ row "TFT17_Augment_EvelynnGodAugment_BloodPrice" "gold"
    ∷ row "TFT17_Augment_GragasCarry" "gold"
    ∷ row "TFT17_Augment_InvaderZed" "gold"
    ∷ row "TFT17_Augment_IvernMinionCarry" "gold"
    ∷ row "TFT17_Augment_JaxCarry" "gold"
    ∷ row "TFT17_Augment_KayleGodAugment" "gold"
    ∷ row "TFT17_Augment_KayleGodAugment_Scrapper" "gold"
    ∷ row "TFT17_Augment_LeonaCarry" "gold"
    ∷ row "TFT17_Augment_MordekaiserCarry" "gold"
    ∷ row "TFT17_Augment_NasusCarry" "gold"
    ∷ row "TFT17_Augment_PoppyCarry" "gold"
    ∷ row "TFT17_Augment_PrimordianPrismaticAugment" "gold"
    ∷ row "TFT17_Augment_PykeCarry" "gold"
    ∷ row "TFT17_Augment_SorakaGodAugment" "gold"
    ∷ row "TFT17_Augment_ThreshGodAugment" "gold"
    ∷ row "TFT17_Augment_Timebreaker_Timestream" "gold"
    ∷ row "TFT17_Augment_TourOfTheGalaxy" "gold"
    ∷ row "TFT17_Augment_VarusGodAugment_BoonOfStars" "gold"
    ∷ row "TFT17_Augment_YasuoGodAugment_GoldenHex" "gold"
    ∷ row "TFT17_Augment_YasuoGodAugment_MoreHexes" "gold"
    ∷ row "TFT17_Augment_YasuoGodAugment_PaintedPower" "gold"
    ∷ row "TFT6_Augment_BandOfThieves2" "gold"
    ∷ row "TFT6_Augment_BandOfThieves2Plus" "gold"
    ∷ row "TFT6_Augment_BandOfThieves2PlusPlus" "gold"
    ∷ row "TFT6_Augment_CalculatedLoss" "gold"
    ∷ row "TFT6_Augment_ClearMind" "gold"
    ∷ row "TFT6_Augment_CyberneticImplants2" "gold"
    ∷ row "TFT6_Augment_CyberneticUplink2" "gold"
    ∷ row "TFT6_Augment_Distancing" "silver"
    ∷ row "TFT6_Augment_Distancing2" "gold"
    ∷ row "TFT6_Augment_Diversify1" "gold"
    ∷ row "TFT6_Augment_Electrocharge1" "silver"
    ∷ row "TFT6_Augment_Electrocharge2" "gold"
    ∷ row "TFT6_Augment_ForceOfNature" "gold"
    ∷ row "TFT6_Augment_ForceOfNaturePlus" "gold"
    ∷ row "TFT6_Augment_GachaAddict" "gold"
    ∷ row "TFT6_Augment_HyperRoll" "gold"
    ∷ row "TFT6_Augment_ItemGrabBag1" "gold"
    ∷ row "TFT6_Augment_MakeshiftArmor1" "silver"
    ∷ row "TFT6_Augment_MakeshiftArmor2" "gold"
    ∷ row "TFT6_Augment_MaxLevel10" "gold"
    ∷ row "TFT6_Augment_OneTwoFive" "gold"
    ∷ row "TFT6_Augment_PandorasItems" "gold"
    ∷ row "TFT6_Augment_PortableForge" "gold"
    ∷ row "TFT6_Augment_Recombobulator" "gold"
    ∷ row "TFT6_Augment_SalvageBin" "gold"
    ∷ row "TFT6_Augment_SecondWind1" "gold"
    ∷ row "TFT6_Augment_SecondWind2" "gold"
    ∷ row "TFT6_Augment_SunfireBoard" "gold"
    ∷ row "TFT6_Augment_TheGoldenEgg" "gold"
    ∷ row "TFT6_Augment_ThriftShop" "gold"
    ∷ row "TFT6_Augment_TinyTitans" "gold"
    ∷ row "TFT6_Augment_TradeSector" "gold"
    ∷ row "TFT6_Augment_TradeSector2" "gold"
    ∷ row "TFT7_Augment_AFK" "gold"
    ∷ row "TFT7_Augment_BandOfThieves1" "gold"
    ∷ row "TFT7_Augment_BestFriends1" "silver"
    ∷ row "TFT7_Augment_BestFriends2" "gold"
    ∷ row "TFT7_Augment_BirthdayPresents" "gold"
    ∷ row "TFT7_Augment_ClutteredMind" "gold"
    ∷ row "TFT7_Augment_CursedCrown" "gold"
    ∷ row "TFT7_Augment_LategameSpecialist" "gold"
    ∷ row "TFT7_Augment_LivingForge" "gold"
    ∷ row "TFT7_Augment_LuckyGloves" "gold"
    ∷ row "TFT7_Augment_LuckyGlovesPlus" "gold"
    ∷ row "TFT7_Augment_UrfsGrabBag2" "gold"
    ∷ row "TFT8_Augment_SalvageBinPlus" "gold"
    ∷ row "TFT9_Augment_ArmyBuilding" "gold"
    ∷ row "TFT9_Augment_BardPlaybook1" "gold"
    ∷ row "TFT9_Augment_BigGrabBag" "gold"
    ∷ row "TFT9_Augment_BuildingACollectionPlusPlus" "gold"
    ∷ row "TFT9_Augment_Commander_Ascension" "gold"
    ∷ row "TFT9_Augment_Commander_PartialAscension" "gold"
    ∷ row "TFT9_Augment_Commander_RollingForDays" "silver"
    ∷ row "TFT9_Augment_Commander_TeamingUp1" "gold"
    ∷ row "TFT9_Augment_GreaterJeweledLotus" "gold"
    ∷ row "TFT9_Augment_HealingOrbsI" "silver"
    ∷ row "TFT9_Augment_HealingOrbsII" "gold"
    ∷ row "TFT9_Augment_HedgeFund" "gold"
    ∷ row "TFT9_Augment_HedgeFundPlus" "gold"
    ∷ row "TFT9_Augment_IronAssets" "gold"
    ∷ row "TFT9_Augment_JeweledLotus" "silver"
    ∷ row "TFT9_Augment_LearningFromExperience2" "gold"
    ∷ row "TFT9_Augment_Legend_HighEndSector" "gold"
    ∷ row "TFT9_Augment_LongTimeCrafting" "gold"
    ∷ row "TFT9_Augment_MissedConnections" "gold"
    ∷ row "TFT9_Augment_OneTwosThree" "gold"
    ∷ row "TFT9_Augment_PandorasItems2" "gold"
    ∷ row "TFT9_Augment_PandorasRadiantBox" "prismatic"
    ∷ row "TFT9_Augment_RiskyMoves" "gold"
    ∷ row "TFT9_Augment_RollTheDice" "gold"
    ∷ row "TFT9_Augment_SilverSpoon" "gold"
    ∷ row "TFT9_Augment_TiniestTitanPlus" "gold"
    ∷ row "TFT9_Augment_TonsOfStats" "gold"
    ∷ row "TFT9_Augment_YouHaveMyBow" "gold"
    ∷ row "TFT_Augment_AdvancedLoan" "gold"
    ∷ row "TFT_Augment_AdvancedLoanPlus" "gold"
    ∷ row "TFT_Augment_AnExaltedAdventure" "gold"
    ∷ row "TFT_Augment_ArcaneViktory" "gold"
    ∷ row "TFT_Augment_AuraFarming" "gold"
    ∷ row "TFT_Augment_AwakenedSoul" "gold"
    ∷ row "TFT_Augment_BacklineBlueprint" "gold"
    ∷ row "TFT_Augment_BeltOverflow" "gold"
    ∷ row "TFT_Augment_BirthdayReunion" "gold"
    ∷ row "TFT_Augment_BodyguardTraining" "gold"
    ∷ row "TFT_Augment_BoosterPack" "gold"
    ∷ row "TFT_Augment_BoosterPackPlus" "gold"
    ∷ row "TFT_Augment_BoxingLessons" "gold"
    ∷ row "TFT_Augment_BranchingOut" "gold"
    ∷ row "TFT_Augment_BranchingOutPlus" "gold"
    ∷ row "TFT_Augment_BronzeForLife2" "gold"
    ∷ row "TFT_Augment_BronzeForLifeI" "silver"
    ∷ row "TFT_Augment_ChargeTransfer1" "silver"
    ∷ row "TFT_Augment_ChargeTransfer2" "gold"
    ∷ row "TFT_Augment_ClimbTheLadder1" "silver"
    ∷ row "TFT_Augment_ClimbTheLadder2" "gold"
    ∷ row "TFT_Augment_ClockworkAccelerator" "gold"
    ∷ row "TFT_Augment_CognitiveOverload" "gold"
    ∷ row "TFT_Augment_CognitiveTax" "gold"
    ∷ row "TFT_Augment_CognitiveTaxPlus" "gold"
    ∷ row "TFT_Augment_ComebackStory" "gold"
    ∷ row "TFT_Augment_ComponentQuestBow" "gold"
    ∷ row "TFT_Augment_ComponentQuestRod" "gold"
    ∷ row "TFT_Augment_ComponentQuestSword" "gold"
    ∷ row "TFT_Augment_ComponentQuestTear" "gold"
    ∷ row "TFT_Augment_ConstructACompanion" "gold"
    ∷ row "TFT_Augment_Corrosion" "gold"
    ∷ row "TFT_Augment_CosmicRestart" "gold"
    ∷ row "TFT_Augment_CraftedCrafting" "gold"
    ∷ row "TFT_Augment_CryMeARiver" "gold"
    ∷ row "TFT_Augment_DeadlierCaps" "gold"
    ∷ row "TFT_Augment_Dhampyr1" "silver"
    ∷ row "TFT_Augment_Dummify" "gold"
    ∷ row "TFT_Augment_DuoQueue" "gold"
    ∷ row "TFT_Augment_EarlyLearning" "gold"
    ∷ row "TFT_Augment_EpicRolldown" "gold"
    ∷ row "TFT_Augment_ExclusiveCustomization" "gold"
    ∷ row "TFT_Augment_ExclusiveCustomization2" "gold"
    ∷ row "TFT_Augment_ExpectedUnexpectedness" "gold"
    ∷ row "TFT_Augment_Expedition" "gold"
    ∷ row "TFT_Augment_ExplosiveGrowth" "gold"
    ∷ row "TFT_Augment_ExplosiveGrowthPlus" "gold"
    ∷ row "TFT_Augment_FeedTheFlames" "gold"
    ∷ row "TFT_Augment_FeelingLucky" "gold"
    ∷ row "TFT_Augment_FindYourCenter" "gold"
    ∷ row "TFT_Augment_FiresalePlus" "gold"
    ∷ row "TFT_Augment_Flexible" "gold"
    ∷ row "TFT_Augment_ForgeAFriend" "gold"
    ∷ row "TFT_Augment_ForgeRod" "gold"
    ∷ row "TFT_Augment_ForgeSword" "gold"
    ∷ row "TFT_Augment_ForgedInStrength" "gold"
    ∷ row "TFT_Augment_ForwardThinking" "gold"
    ∷ row "TFT_Augment_FrontlineFoundation" "gold"
    ∷ row "TFT_Augment_FuriousBlows" "gold"
    ∷ row "TFT_Augment_GainGold" "gold"
    ∷ row "TFT_Augment_GiantAndMighty" "gold"
    ∷ row "TFT_Augment_GildedSteel" "gold"
    ∷ row "TFT_Augment_GlassCannonI" "silver"
    ∷ row "TFT_Augment_GlassCannonII" "gold"
    ∷ row "TFT_Augment_GoldenGamble" "gold"
    ∷ row "TFT_Augment_GoldenGamblePlus" "gold"
    ∷ row "TFT_Augment_GoldenGamblePlusPlus" "gold"
    ∷ row "TFT_Augment_GroupHug1" "silver"
    ∷ row "TFT_Augment_GroupHug2" "gold"
    ∷ row "TFT_Augment_GuardbreakerSpirit" "gold"
    ∷ row "TFT_Augment_HardCommit" "gold"
    ∷ row "TFT_Augment_HeavyIsTheCrown" "gold"
    ∷ row "TFT_Augment_HeroicGrabBagPlus" "gold"
    ∷ row "TFT_Augment_HeroicGrabBagPlusPlus" "gold"
    ∷ row "TFT_Augment_HighVoltage" "gold"
    ∷ row "TFT_Augment_HoldTheLine" "gold"
    ∷ row "TFT_Augment_HomeCooking" "gold"
    ∷ row "TFT_Augment_InfinityProtection" "gold"
    ∷ row "TFT_Augment_InvestedPlus" "gold"
    ∷ row "TFT_Augment_InvestedPlusPlus" "gold"
    ∷ row "TFT_Augment_ItemGargoyleStoneplate" "gold"
    ∷ row "TFT_Augment_ItemSpiritVisage" "gold"
    ∷ row "TFT_Augment_JustSlayer" "gold"
    ∷ row "TFT_Augment_KickStart" "gold"
    ∷ row "TFT_Augment_LateGameScaling" "gold"
    ∷ row "TFT_Augment_LegionOfThrees" "gold"
    ∷ row "TFT_Augment_Lineup" "gold"
    ∷ row "TFT_Augment_LuxurySubscription" "gold"
    ∷ row "TFT_Augment_MagicRoll" "gold"
    ∷ row "TFT_Augment_MagicRollMinus" "gold"
    ∷ row "TFT_Augment_MarksMan" "gold"
    ∷ row "TFT_Augment_MayTheFoursBeWithYou" "gold"
    ∷ row "TFT_Augment_MinMaxer" "gold"
    ∷ row "TFT_Augment_MirroredMonetization" "gold"
    ∷ row "TFT_Augment_Misfits" "gold"
    ∷ row "TFT_Augment_MoneyHungry" "gold"
    ∷ row "TFT_Augment_MoneyMonsoon" "gold"
    ∷ row "TFT_Augment_MuseumHeist" "gold"
    ∷ row "TFT_Augment_NoScoutNoPivot" "gold"
    ∷ row "TFT_Augment_OneBuffTwoBuff" "gold"
    ∷ row "TFT_Augment_PatienceIsAVirtue" "gold"
    ∷ row "TFT_Augment_Pilfer" "gold"
    ∷ row "TFT_Augment_PlotArmor" "gold"
    ∷ row "TFT_Augment_PowerUp" "gold"
    ∷ row "TFT_Augment_Replication" "gold"
    ∷ row "TFT_Augment_RestartMission" "gold"
    ∷ row "TFT_Augment_Retribution" "gold"
    ∷ row "TFT_Augment_SavingsAccount" "gold"
    ∷ row "TFT_Augment_SeraphimsStaff" "gold"
    ∷ row "TFT_Augment_ShimmerscaleEssence" "gold"
    ∷ row "TFT_Augment_SideEffects" "gold"
    ∷ row "TFT_Augment_SizeMatters" "gold"
    ∷ row "TFT_Augment_SliceOfLife" "gold"
    ∷ row "TFT_Augment_SmallGrabBag" "gold"
    ∷ row "TFT_Augment_SoloLeveling" "gold"
    ∷ row "TFT_Augment_SpeedyDoubleKill" "gold"
    ∷ row "TFT_Augment_SpreadingRoots" "gold"
    ∷ row "TFT_Augment_SpreadingRootsPlus" "gold"
    ∷ row "TFT_Augment_SubscriptionService" "gold"
    ∷ row "TFT_Augment_Survivor" "gold"
    ∷ row "TFT_Augment_SweetTreats" "gold"
    ∷ row "TFT_Augment_SwordOverflow" "gold"
    ∷ row "TFT_Augment_TacticiansKitchen" "gold"
    ∷ row "TFT_Augment_TheBaronsLair" "gold"
    ∷ row "TFT_Augment_TheDarkinBlade" "gold"
    ∷ row "TFT_Augment_TheGoldenDragon" "gold"
    ∷ row "TFT_Augment_TheTower" "gold"
    ∷ row "TFT_Augment_TheVidalion" "gold"
    ∷ row "TFT_Augment_TragicalBlade" "gold"
    ∷ row "TFT_Augment_TraitTree" "gold"
    ∷ row "TFT_Augment_TraitTreePlus" "gold"
    ∷ row "TFT_Augment_TreasureHunt" "gold"
    ∷ row "TFT_Augment_Trifecta1" "silver"
    ∷ row "TFT_Augment_Trifecta2" "gold"
    ∷ row "TFT_Augment_TwinGuardians" "gold"
    ∷ row "TFT_Augment_TwoMuchValue" "gold"
    ∷ row "TFT_Augment_TwoTanky" "gold"
    ∷ row "TFT_Augment_Unforgotten" "gold"
    ∷ row "TFT_Augment_UpwardMobility" "gold"
    ∷ row "TFT_Augment_UrfsGambit" "gold"
    ∷ row "TFT_Augment_WandOverflow" "gold"
    ∷ row "TFT_Augment_WarmogsBuckle" "gold"
    ∷ row "TFT_Augment_Warpath" "gold"
    ∷ row "TFT_Augment_Waverider" "gold"
    ∷ row "TFT_Augment_WeStickTogether" "gold"
    ∷ row "TFT_Augment_WinOut" "gold"
    ∷ row "TFT_Augment_WorthTheWaitGold" "gold"
    ∷ row "TFT_Augment_WorthTheWaitPrismatic" "gold"
    ∷ []
