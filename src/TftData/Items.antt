-- ===== src/TftData/Items.antt =====
-- The item pool of common/tft_data.py.
use tft_stats_analytics.Base.{String, List, [], ◌∷◌}

-- `ITEMS`
unfoldable pub items : List String
items =
    "TFT_Item_AdaptiveHelm" ∷ "TFT_Item_ArchangelsStaff" ∷ "TFT_Item_Bloodthirster"
    ∷ "TFT_Item_BlueBuff" ∷ "TFT_Item_BrambleVest" ∷ "TFT_Item_Crownguard" ∷ "TFT_Item_Deathblade"
    ∷ "TFT_Item_CorruptedDeathblade" ∷ "TFT_Item_DragonsClaw" ∷ "TFT_Item_GuardianAngel"
    ∷ "TFT_Item_SpectralGauntlet" ∷ "TFT_Item_GargoyleStoneplate"
    ∷ "TFT_Item_CorruptedGargoyleStoneplate" ∷ "TFT_Item_MadredsBloodrazor"
    ∷ "TFT_Item_GuinsoosRageblade" ∷ "TFT_Item_CorruptedGuinsoosRageblade"
    ∷ "TFT_Item_UnstableConcoction" ∷ "TFT_Item_CorruptedHandOfJustice" ∷ "TFT_Item_HextechGunblade"
    ∷ "TFT_Item_InfinityEdge" ∷ "TFT_Item_CorruptedInfinityEdge" ∷ "TFT_Item_IonicSpark"
    ∷ "TFT_Item_JeweledGauntlet" ∷ "TFT_Item_CorruptedJeweledGauntlet" ∷ "TFT_Item_RunaansHurricane"
    ∷ "TFT_Item_LastWhisper" ∷ "TFT_Item_Morellonomicon" ∷ "TFT_Item_Leviathan"
    ∷ "TFT_Item_FrozenHeart" ∷ "TFT_Item_Quicksilver" ∷ "TFT_Item_RabadonsDeathcap"
    ∷ "TFT_Item_CorruptedRabadonsDeathcap" ∷ "TFT_Item_RapidFireCannon" ∷ "TFT_Item_SpearOfShojin"
    ∷ "TFT_Item_CorruptedSpearOfShojin" ∷ "TFT_Item_Redemption" ∷ "TFT_Item_CorruptedRedemption"
    ∷ "TFT_Item_NightHarvester" ∷ "TFT_Item_SteraksGage" ∷ "TFT_Item_PowerGauntlet"
    ∷ "TFT_Item_RedBuff" ∷ "TFT_Item_TacticiansRing" ∷ "TFT_Item_ForceOfNature"
    ∷ "TFT_Item_TacticiansScepter" ∷ "TFT_Item_ThiefsGloves" ∷ "TFT_Item_TitansResolve"
    ∷ "TFT_Item_StatikkShiv" ∷ "TFT_Item_WarmogsArmor" ∷ "TFT_Item_CorruptedWarmogsArmor"
    ∷ "TFT_Item_CursedBlade" ∷ "TFT_Item_HextechChestguard" ∷ []
