-- ===== src/TftData.antt =====
-- The static Set 17 reference data of common/tft_data.py: the roster, the items, the augments and
-- the named compositions in the modules below, and the tiers, regions and patches here.
pub mod Champions
pub mod Items
pub mod Augments
pub mod AugmentTiers
pub mod AugmentCategories
pub mod Comps
pub mod Positions
pub mod Icons
pub mod Traits
pub mod BuilderItems
pub mod Check
use mathlib.Core.List.{reverse}
use tft_stats_analytics.Base.{ℕ, ◌+◌, String, List, [], ◌∷◌}

-- `TIERS`
unfoldable pub tiers : List String
tiers =
    "IRON" ∷ "BRONZE" ∷ "SILVER" ∷ "GOLD" ∷ "PLATINUM" ∷ "DIAMOND" ∷ "MASTER" ∷ "GRANDMASTER"
    ∷ "CHALLENGER" ∷ []

-- `{t: i for i, t in enumerate(…)}`, from `i`
abbrev pub ranked : ℕ → List String → List (String × ℕ)
ranked i [] = []
ranked i (t ∷ ts) = (t, i) ∷ ranked (i + 1) ts

-- `TIER_RANK`
unfoldable pub tier_rank : List (String × ℕ)
unfolding tiers
tier_rank = ranked 0 (reverse tiers)

-- `REGION_PLATFORM`
unfoldable pub region_platform : List (String × String)
region_platform = ("NA", "na1") ∷ ("EUW", "euw1") ∷ ("KR", "kr") ∷ ("BR", "br1") ∷ []

-- `REGION_CLUSTER`
unfoldable pub region_cluster : List (String × String)
region_cluster = ("NA", "americas") ∷ ("EUW", "europe") ∷ ("KR", "asia") ∷ ("BR", "americas") ∷ []

-- `DEFAULT_PATCH`
abbrev pub default_patch : String
default_patch = "17.3"

-- `PATCHES`
unfoldable pub patches : List String
patches = "17.1" ∷ "17.2" ∷ "17.3" ∷ []

-- `HIGH_ELO_FAVORITES`
unfoldable pub high_elo_favorites : List String
high_elo_favorites =
    "TFT17_AurelionSol" ∷ "TFT17_Corki" ∷ "TFT17_Karma" ∷ "TFT17_Kindred" ∷ "TFT17_Leblanc"
    ∷ "TFT17_MasterYi" ∷ "TFT17_Morgana" ∷ "TFT17_Nami" ∷ []

-- `TRAP_AUGMENT`
abbrev pub trap_augment : String
trap_augment = "TFT10_Augment_CrashTestDummies"
