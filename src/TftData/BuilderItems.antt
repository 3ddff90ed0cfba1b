-- ===== src/TftData/BuilderItems.antt =====
-- The items of the board builder in common/tft_data.py, with the recipes of those that have one.
use tft_stats_analytics.Base.{String, Option, some, none, List, [], ◌∷◌}

pub record BuilderItem : Type 0 where
  pub item_id : String
  pub name : String
  pub icon : String
  pub kind : String
  pub recipe : Option (List String)

abbrev item : String → String → String → String → Option (List String) → BuilderItem
item item_id name icon kind recipe = record {
  item_id = item_id;
  name = name;
  icon = icon;
  kind = kind;
  recipe = recipe;
}

-- `BUILDER_ITEMS`
unfoldable pub builder_items : List BuilderItem
builder_items =
    item "TFT_Item_AdaptiveHelm" "Adaptive Helm"
      "https://raw.communitydragon.org/latest/game/assets/maps/tft/icons/items/hexcore/tft_item_adaptivehelm.tft_set13.png"
      "completed" (some ("TFT_Item_NegatronCloak" ∷ "TFT_Item_TearOfTheGoddess" ∷ []))
    ∷ item "TFT_Item_ArchangelsStaff" "Archangel's Staff"
        "https://raw.communitydragon.org/latest/game/assets/maps/tft/icons/items/hexcore/tft_item_archangelsstaff.tft_set13.png"
        "completed" (some ("TFT_Item_NeedlesslyLargeRod" ∷ "TFT_Item_TearOfTheGoddess" ∷ []))
    ∷ item "TFT_Item_Bloodthirster" "Bloodthirster"
        "https://raw.communitydragon.org/latest/game/assets/maps/tft/icons/items/hexcore/tft_item_bloodthirster.tft_set13.png"
        "completed" (some ("TFT_Item_BFSword" ∷ "TFT_Item_NegatronCloak" ∷ []))
    ∷ item "TFT_Item_BlueBuff" "Blue Buff"
        "https://raw.communitydragon.org/latest/game/assets/maps/tft/icons/items/hexcore/tft_item_bluebuff.tft_set13.png"
        "completed" (some ("TFT_Item_TearOfTheGoddess" ∷ "TFT_Item_TearOfTheGoddess" ∷ []))
    ∷ item "TFT_Item_BrambleVest" "Bramble Vest"
        "https://raw.communitydragon.org/latest/game/assets/maps/tft/icons/items/hexcore/tft_item_bramblevest.tft_set13.png"
        "completed" (some ("TFT_Item_ChainVest" ∷ "TFT_Item_ChainVest" ∷ []))
    ∷ item "TFT_Item_Crownguard" "Crownguard"
        "https://raw.communitydragon.org/latest/game/assets/maps/tft/icons/items/hexcore/tft_item_crownguard.tft_set13.png"
        "completed" (some ("TFT_Item_NeedlesslyLargeRod" ∷ "TFT_Item_ChainVest" ∷ []))
    ∷ item "TFT_Item_Deathblade" "Deathblade"
        "https://raw.communitydragon.org/latest/game/assets/maps/tft/icons/items/hexcore/tft_item_deathblade.tft_set13.png"
        "completed" (some ("TFT_Item_BFSword" ∷ "TFT_Item_BFSword" ∷ []))
    ∷ item "TFT_Item_CorruptedDeathblade" "Deathblade"
        "https://raw.communitydragon.org/latest/game/assets/maps/tft/icons/items/hexcore/tft_item_deathblade.tft_set13.png"
        "completed" (some ("TFT_Item_BFSword" ∷ "TFT_Item_BFSword" ∷ []))
    ∷ item "TFT_Item_DragonsClaw" "Dragon's Claw"
        "https://raw.communitydragon.org/latest/game/assets/maps/tft/icons/items/hexcore/tft_item_dragonsclaw.tft_set13.png"
        "completed" (some ("TFT_Item_NegatronCloak" ∷ "TFT_Item_NegatronCloak" ∷ []))
    ∷ item "TFT_Item_GuardianAngel" "Edge of Night"
        "https://raw.communitydragon.org/latest/game/assets/maps/tft/icons/items/hexcore/tft_item_guardianangel.tft_set13.png"
        "completed" (some ("TFT_Item_BFSword" ∷ "TFT_Item_ChainVest" ∷ []))
    ∷ item "TFT_Item_SpectralGauntlet" "Evenshroud"
        "https://raw.communitydragon.org/latest/game/assets/maps/tft/icons/items/hexcore/tft_item_spectralgauntlet.tft_set13.png"
        "completed" (some ("TFT_Item_NegatronCloak" ∷ "TFT_Item_GiantsBelt" ∷ []))
    ∷ item "TFT_Item_GargoyleStoneplate" "Gargoyle Stoneplate"
        "https://raw.communitydragon.org/latest/game/assets/maps/tft/icons/items/hexcore/tft_item_gargoylestoneplate.tft_set13.png"
        "completed" (some ("TFT_Item_ChainVest" ∷ "TFT_Item_NegatronCloak" ∷ []))
    ∷ item "TFT_Item_CorruptedGargoyleStoneplate" "Gargoyle Stoneplate"
        "https://raw.communitydragon.org/latest/game/assets/maps/tft/icons/items/hexcore/tft_item_gargoylestoneplate.tft_set13.png"
        "completed" (some ("TFT_Item_ChainVest" ∷ "TFT_Item_NegatronCloak" ∷ []))
    ∷ item "TFT_Item_MadredsBloodrazor" "Giant Slayer"
        "https://raw.communitydragon.org/latest/game/assets/maps/tft/icons/items/hexcore/tft_item_madredsbloodrazor.tft_set13.png"
        "completed" (some ("TFT_Item_BFSword" ∷ "TFT_Item_RecurveBow" ∷ []))
    ∷ item "TFT_Item_GuinsoosRageblade" "Guinsoo's Rageblade"
        "https://raw.communitydragon.org/latest/game/assets/maps/tft/icons/items/hexcore/tft_item_guinsoosrageblade.tft_set13.png"
        "completed" (some ("TFT_Item_RecurveBow" ∷ "TFT_Item_NeedlesslyLargeRod" ∷ []))
    ∷ item "TFT_Item_CorruptedGuinsoosRageblade" "Guinsoo's Rageblade"
        "https://raw.communitydragon.org/latest/game/assets/maps/tft/icons/items/hexcore/tft_item_guinsoosrageblade.tft_set13.png"
        "completed" (some ("TFT_Item_RecurveBow" ∷ "TFT_Item_NeedlesslyLargeRod" ∷ []))
    ∷ item "TFT_Item_UnstableConcoction" "Hand Of Justice"
        "https://raw.communitydragon.org/latest/game/assets/maps/tft/icons/items/hexcore/tft_item_unstableconcoction.tft_set13.png"
        "completed" (some ("TFT_Item_TearOfTheGoddess" ∷ "TFT_Item_SparringGloves" ∷ []))
    ∷ item "TFT_Item_CorruptedHandOfJustice" "Hand Of Justice"
        "https://raw.communitydragon.org/latest/game/assets/maps/tft/icons/items/hexcore/tft_item_unstableconcoction.tft_set13.png"
        "completed" (some ("TFT_Item_TearOfTheGoddess" ∷ "TFT_Item_SparringGloves" ∷ []))
    ∷ item "TFT_Item_HextechGunblade" "Hextech Gunblade"
        "https://raw.communitydragon.org/latest/game/assets/maps/tft/icons/items/hexcore/tft_item_hextechgunblade.tft_set13.png"
        "completed" (some ("TFT_Item_BFSword" ∷ "TFT_Item_NeedlesslyLargeRod" ∷ []))
    ∷ item "TFT_Item_InfinityEdge" "Infinity Edge"
        "https://raw.communitydragon.org/latest/game/assets/maps/tft/icons/items/hexcore/tft_item_infinityedge.tft_set13.png"
        "completed" (some ("TFT_Item_BFSword" ∷ "TFT_Item_SparringGloves" ∷ []))
    ∷ item "TFT_Item_CorruptedInfinityEdge" "Infinity Edge"
        "https://raw.communitydragon.org/latest/game/assets/maps/tft/icons/items/hexcore/tft_item_infinityedge.tft_set13.png"
        "completed" (some ("TFT_Item_BFSword" ∷ "TFT_Item_SparringGloves" ∷ []))
    ∷ item "TFT_Item_IonicSpark" "Ionic Spark"
        "https://raw.communitydragon.org/latest/game/assets/maps/tft/icons/items/hexcore/tft_item_ionicspark.tft_set13.png"
        "completed" (some ("TFT_Item_NeedlesslyLargeRod" ∷ "TFT_Item_NegatronCloak" ∷ []))
    ∷ item "TFT_Item_JeweledGauntlet" "Jeweled Gauntlet"
        "https://raw.communitydragon.org/latest/game/assets/maps/tft/icons/items/hexcore/tft_item_jeweledgauntlet.tft_set13.png"
        "completed" (some ("TFT_Item_NeedlesslyLargeRod" ∷ "TFT_Item_SparringGloves" ∷ []))
    ∷ item "TFT_Item_CorruptedJeweledGauntlet" "Jeweled Gauntlet"
        "https://raw.communitydragon.org/latest/game/assets/maps/tft/icons/items/hexcore/tft_item_jeweledgauntlet.tft_set13.png"
        "completed" (some ("TFT_Item_NeedlesslyLargeRod" ∷ "TFT_Item_SparringGloves" ∷ []))
    ∷ item "TFT_Item_RunaansHurricane" "Kraken's Fury"
        "https://raw.communitydragon.org/latest/game/assets/maps/tft/icons/items/hexcore/tft_item_krakenslayer.png"
        "completed" (some ("TFT_Item_NegatronCloak" ∷ "TFT_Item_RecurveBow" ∷ []))
    ∷ item "TFT_Item_LastWhisper" "Last Whisper"
        "https://raw.communitydragon.org/latest/game/assets/maps/tft/icons/items/hexcore/tft_item_lastwhisper.tft_set13.png"
        "completed" (some ("TFT_Item_RecurveBow" ∷ "TFT_Item_SparringGloves" ∷ []))
    ∷ item "TFT_Item_Morellonomicon" "Morellonomicon"
        "https://raw.communitydragon.org/latest/game/assets/maps/tft/icons/items/hexcore/tft_item_morellonomicon.tft_set13.png"
        "completed" (some ("TFT_Item_NeedlesslyLargeRod" ∷ "TFT_Item_GiantsBelt" ∷ []))
    ∷ item "TFT_Item_Leviathan" "Nashor's Tooth"
        "https://raw.communitydragon.org/latest/game/assets/maps/tft/icons/items/hexcore/tft_item_leviathan.tft_set13.png"
        "completed" (some ("TFT_Item_RecurveBow" ∷ "TFT_Item_GiantsBelt" ∷ []))
    ∷ item "TFT_Item_FrozenHeart" "Protector's Vow"
        "https://raw.communitydragon.org/latest/game/assets/maps/tft/icons/items/hexcore/tft_item_frozenheart.tft_set13.png"
        "completed" (some ("TFT_Item_TearOfTheGoddess" ∷ "TFT_Item_ChainVest" ∷ []))
    ∷ item "TFT_Item_Quicksilver" "Quicksilver"
        "https://raw.communitydragon.org/latest/game/assets/maps/tft/icons/items/hexcore/tft_item_quicksilver.tft_set13.png"
        "completed" (some ("TFT_Item_SparringGloves" ∷ "TFT_Item_NegatronCloak" ∷ []))
    ∷ item "TFT_Item_RabadonsDeathcap" "Rabadon's Deathcap"
        "https://raw.communitydragon.org/latest/game/assets/maps/tft/icons/items/hexcore/tft_item_rabadonsdeathcap.tft_set13.png"
        "completed" (some ("TFT_Item_NeedlesslyLargeRod" ∷ "TFT_Item_NeedlesslyLargeRod" ∷ []))
    ∷ item "TFT_Item_CorruptedRabadonsDeathcap" "Rabadon's Deathcap"
        "https://raw.communitydragon.org/latest/game/assets/maps/tft/icons/items/hexcore/tft_item_rabadonsdeathcap.tft_set13.png"
        "completed" (some ("TFT_Item_NeedlesslyLargeRod" ∷ "TFT_Item_NeedlesslyLargeRod" ∷ []))
    ∷ item "TFT_Item_RapidFireCannon" "Red Buff"
        "https://raw.communitydragon.org/latest/game/assets/maps/tft/icons/items/hexcore/tft_item_rapidfirecannon.tft_set13.png"
        "completed" (some ("TFT_Item_RecurveBow" ∷ "TFT_Item_RecurveBow" ∷ []))
    ∷ item "TFT_Item_SpearOfShojin" "Spear of Shojin"
        "https://raw.communitydragon.org/latest/game/assets/maps/tft/icons/items/hexcore/tft_item_spearofshojin.tft_set13.png"
        "completed" (some ("TFT_Item_BFSword" ∷ "TFT_Item_TearOfTheGoddess" ∷ []))
    ∷ item "TFT_Item_CorruptedSpearOfShojin" "Spear of Shojin"
        "https://raw.communitydragon.org/latest/game/assets/maps/tft/icons/items/hexcore/tft_item_spearofshojin.tft_set13.png"
        "completed" (some ("TFT_Item_BFSword" ∷ "TFT_Item_TearOfTheGoddess" ∷ []))
    ∷ item "TFT_Item_Redemption" "Spirit Visage"
        "https://raw.communitydragon.org/latest/game/assets/maps/tft/icons/items/hexcore/tft_item_spiritvisagerr.png"
        "completed" (some ("TFT_Item_TearOfTheGoddess" ∷ "TFT_Item_GiantsBelt" ∷ []))
    ∷ item "TFT_Item_CorruptedRedemption" "Spirit Visage"
        "https://raw.communitydragon.org/latest/game/assets/maps/tft/icons/items/hexcore/tft_item_spiritvisagerr.png"
        "completed" (some ("TFT_Item_TearOfTheGoddess" ∷ "TFT_Item_GiantsBelt" ∷ []))
    ∷ item "TFT_Item_NightHarvester" "Steadfast Heart"
        "https://raw.communitydragon.org/latest/game/assets/maps/tft/icons/items/hexcore/tft_item_nightharvester.tft_set13.png"
        "completed" (some ("TFT_Item_ChainVest" ∷ "TFT_Item_SparringGloves" ∷ []))
    ∷ item "TFT_Item_SteraksGage" "Sterak's Gage"
        "https://raw.communitydragon.org/latest/game/assets/maps/tft/icons/items/hexcore/tft_item_steraksgage.tft_set13.png"
        "completed" (some ("TFT_Item_BFSword" ∷ "TFT_Item_GiantsBelt" ∷ []))
    ∷ item "TFT_Item_PowerGauntlet" "Striker's Flail"
        "https://raw.communitydragon.org/latest/game/assets/maps/tft/icons/items/hexcore/tft_item_powergauntlet.tft_set13.png"
        "completed" (some ("TFT_Item_GiantsBelt" ∷ "TFT_Item_SparringGloves" ∷ []))
    ∷ item "TFT_Item_RedBuff" "Sunfire Cape"
        "https://raw.communitydragon.org/latest/game/assets/maps/tft/icons/items/hexcore/tft_item_redbuff.tft_set13.png"
        "completed" (some ("TFT_Item_ChainVest" ∷ "TFT_Item_GiantsBelt" ∷ []))
    ∷ item "TFT_Item_TacticiansRing" "Tactician's Cape"
        "https://raw.communitydragon.org/latest/game/assets/maps/tft/icons/items/hexcore/tft_item_tacticiansring.tft_set13.png"
        "completed" (some ("TFT_Item_Spatula" ∷ "TFT_Item_FryingPan" ∷ []))
    ∷ item "TFT_Item_ForceOfNature" "Tactician's Crown"
        "https://raw.communitydragon.org/latest/game/assets/maps/tft/icons/items/hexcore/tft_item_forceofnature.tft_set13.png"
        "completed" (some ("TFT_Item_Spatula" ∷ "TFT_Item_Spatula" ∷ []))
    ∷ item "TFT_Item_TacticiansScepter" "Tactician's Shield"
        "https://raw.communitydragon.org/latest/game/assets/maps/tft/icons/items/hexcore/tft_item_tacticiansscepter.tft_set13.png"
        "completed" (some ("TFT_Item_FryingPan" ∷ "TFT_Item_FryingPan" ∷ []))
    ∷ item "TFT_Item_ThiefsGloves" "Thief's Gloves"
        "https://raw.communitydragon.org/latest/game/assets/maps/tft/icons/items/hexcore/tft_item_thiefsgloves.tft_set13.png"
        "completed" (some ("TFT_Item_SparringGloves" ∷ "TFT_Item_SparringGloves" ∷ []))
    ∷ item "TFT_Item_TitansResolve" "Titan's Resolve"
        "https://raw.communitydragon.org/latest/game/assets/maps/tft/icons/items/hexcore/tft_item_titansresolve.tft_set13.png"
        "completed" (some ("TFT_Item_ChainVest" ∷ "TFT_Item_RecurveBow" ∷ []))
    ∷ item "TFT_Item_StatikkShiv" "Void Staff"
        "https://raw.communitydragon.org/latest/game/assets/maps/tft/icons/items/hexcore/tft_item_voidstaff.png"
        "completed" (some ("TFT_Item_RecurveBow" ∷ "TFT_Item_TearOfTheGoddess" ∷ []))
    ∷ item "TFT_Item_WarmogsArmor" "Warmog's Armor"
        "https://raw.communitydragon.org/latest/game/assets/maps/tft/icons/items/hexcore/tft_item_warmogsarmor.tft_set13.png"
        "completed" (some ("TFT_Item_GiantsBelt" ∷ "TFT_Item_GiantsBelt" ∷ []))
    ∷ item "TFT_Item_CorruptedWarmogsArmor" "Warmog's Armor"
        "https://raw.communitydragon.org/latest/game/assets/maps/tft/icons/items/hexcore/tft_item_warmogsarmor.tft_set13.png"
        "completed" (some ("TFT_Item_GiantsBelt" ∷ "TFT_Item_GiantsBelt" ∷ []))
    ∷ item "TFT_Item_CursedBlade" "tft_item_name_CursedBlade"
        "https://raw.communitydragon.org/latest/game/assets/maps/particles/tft/tft_item_cursedblade.png"
        "completed" (some ("TFT_Item_CursedBlade" ∷ "TFT_Item_CursedBlade" ∷ []))
    ∷ item "TFT_Item_HextechChestguard" "tft_item_name_HextechChestguard"
        "https://raw.communitydragon.org/latest/game/assets/maps/particles/tft/tft_item_hextechchestguard.png"
        "completed" (some ("TFT_Item_HextechChestguard" ∷ "TFT_Item_HextechChestguard" ∷ []))
    ∷ item "TFT_Item_BFSword" "B.F. Sword"
        "https://raw.communitydragon.org/latest/game/assets/maps/tft/icons/items/hexcore/tft_item_bfsword.tft_set13.png"
        "component" (none)
    ∷ item "TFT_Item_ChainVest" "Chain Vest"
        "https://raw.communitydragon.org/latest/game/assets/maps/tft/icons/items/hexcore/tft_item_chainvest.tft_set13.png"
        "component" (none)
    ∷ item "TFT_Item_CursedBlade" "Cursed Blade"
        "https://raw.communitydragon.org/latest/game/assets/maps/particles/tft/tft_item_cursedblade.png"
        "component" (none)
    ∷ item "TFT_Item_FryingPan" "Frying Pan"
        "https://raw.communitydragon.org/latest/game/assets/maps/tft/icons/items/hexcore/tft_item_fryingpan.tft_set13.png"
        "component" (none)
    ∷ item "TFT_Item_GiantsBelt" "Giant's Belt"
        "https://raw.communitydragon.org/latest/game/assets/maps/tft/icons/items/hexcore/tft_item_giantsbelt.tft_set13.png"
        "component" (none)
    ∷ item "TFT_Item_HextechChestguard" "Hextech Chestguard"
        "https://raw.communitydragon.org/latest/game/assets/maps/particles/tft/tft_item_hextechchestguard.png"
        "component" (none)
    ∷ item "TFT_Item_NeedlesslyLargeRod" "Needlessly Large Rod"
        "https://raw.communitydragon.org/latest/game/assets/maps/tft/icons/items/hexcore/tft_item_needlesslylargerod.tft_set13.png"
        "component" (none)
    ∷ item "TFT_Item_NegatronCloak" "Negatron Cloak"
        "https://raw.communitydragon.org/latest/game/assets/maps/tft/icons/items/hexcore/tft_item_negatroncloak.tft_set13.png"
        "component" (none)
    ∷ item "TFT_Item_RecurveBow" "Recurve Bow"
        "https://raw.communitydragon.org/latest/game/assets/maps/tft/icons/items/hexcore/tft_item_recurvebow.tft_set13.png"
        "component" (none)
    ∷ item "TFT_Item_SparringGloves" "Sparring Gloves"
        "https://raw.communitydragon.org/latest/game/assets/maps/tft/icons/items/hexcore/tft_item_sparringgloves.tft_set13.png"
        "component" (none)
    ∷ item "TFT_Item_Spatula" "Spatula"
        "https://raw.communitydragon.org/latest/game/assets/maps/tft/icons/items/hexcore/tft_item_spatula.tft_set13.png"
        "component" (none)
    ∷ item "TFT_Item_TearOfTheGoddess" "Tear of the Goddess"
        "https://raw.communitydragon.org/latest/game/assets/maps/tft/icons/items/hexcore/tft_item_tearofthegoddess.tft_set13.png"
        "component" (none)
    ∷ []
