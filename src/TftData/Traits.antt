-- ===== src/TftData/Traits.antt =====
-- The traits of common/tft_data.py with their icons and breakpoints.
use tft_stats_analytics.Base.{ℕ, String, List, [], ◌∷◌}

pub record Trait : Type 0 where
  pub name : String
  pub icon : String
  pub breakpoints : List ℕ

abbrev trait : String → String → List ℕ → Trait
trait name icon breakpoints = record { name = name; icon = icon; breakpoints = breakpoints }

-- `TRAITS_DATA`
unfoldable pub traits_data : List Trait
traits_data =
    trait "Anima"
      "https://raw.communitydragon.org/latest/game/assets/ux/traiticons/trait_icon_17_animatech.tft_set17.png"
      (3 ∷ 6 ∷ [])
    ∷ trait "Arbiter"
        "https://raw.communitydragon.org/latest/game/assets/ux/traiticons/trait_icon_17_arbiter.tft_set17.png"
        (2 ∷ 3 ∷ [])
    ∷ trait "Bastion"
        "https://raw.communitydragon.org/latest/game/assets/ux/traiticons/trait_icon_9_bastion.png"
        (2 ∷ 4 ∷ 6 ∷ [])
    ∷ trait "Brawler"
        "https://raw.communitydragon.org/latest/game/assets/ux/traiticons/trait_icon_brawler.png"
        (2 ∷ 4 ∷ 6 ∷ [])
    ∷ trait "Bulwark"
        "https://raw.communitydragon.org/latest/game/assets/ux/traiticons/trait_icon_17_bulwark.tft_set17.png"
        (1 ∷ [])
    ∷ trait "Challenger"
        "https://raw.communitydragon.org/latest/game/assets/ux/traiticons/trait_icon_17_challenger.tft_set17.png"
        (2 ∷ 3 ∷ 4 ∷ 5 ∷ [])
    ∷ trait "Choose Trait"
        "https://raw.communitydragon.org/latest/game/assets/ux/traiticons/trait_icon_17_missfortuneundetermindedtrait.tft_set17.png"
        ([])
    ∷ trait "Commander"
        "https://raw.communitydragon.org/latest/game/assets/ux/traiticons/trait_icon_17_commander.tft_set17.png"
        (1 ∷ [])
    ∷ trait "Conduit"
        "https://raw.communitydragon.org/latest/game/assets/ux/traiticons/trait_icon_17_channeler.tft_set17.png"
        (2 ∷ 3 ∷ 4 ∷ 5 ∷ [])
    ∷ trait "Dark Lady"
        "https://raw.communitydragon.org/latest/game/assets/ux/traiticons/trait_icon_17_darklady.tft_set17.png"
        (1 ∷ [])
    ∷ trait "Dark Star"
        "https://raw.communitydragon.org/latest/game/assets/ux/traiticons/trait_icon_17_darkstar.tft_set17.png"
        (2 ∷ 4 ∷ 6 ∷ 9 ∷ [])
    ∷ trait "Divine Duelist"
        "https://raw.communitydragon.org/latest/game/assets/ux/traiticons/trait_icon_17_divineduelist.tft_set17.png"
        (1 ∷ [])
    ∷ trait "Doomer"
        "https://raw.communitydragon.org/latest/game/assets/ux/traiticons/trait_icon_17_doomer.tft_set17.png"
        (1 ∷ [])
    ∷ trait "Eradicator"
        "https://raw.communitydragon.org/latest/game/assets/ux/traiticons/trait_icon_17_singularity.tft_set17.png"
        (1 ∷ [])
    ∷ trait "Factory New"
        "https://raw.communitydragon.org/latest/game/assets/ux/traiticons/trait_icon_17_factorynew.tft_set17.png"
        (1 ∷ [])
    ∷ trait "Fateweaver"
        "https://raw.communitydragon.org/latest/game/assets/ux/traiticons/trait_icon_17_fateweaver.tft_set17.png"
        (2 ∷ 4 ∷ [])
    ∷ trait "Galaxy Hunter"
        "https://raw.communitydragon.org/latest/game/assets/ux/traiticons/trait_icon_17_galaxyhunter.tft_set17.png"
        (1 ∷ [])
    ∷ trait "Gun Goddess"
        "https://raw.communitydragon.org/latest/game/assets/ux/traiticons/trait_icon_17_gungoddess.tft_set17.png"
        (1 ∷ [])
    ∷ trait "Marauder"
        "https://raw.communitydragon.org/latest/game/assets/ux/traiticons/trait_icon_16_slayer.png"
        (2 ∷ 4 ∷ 6 ∷ [])
    ∷ trait "Mecha"
        "https://raw.communitydragon.org/latest/game/assets/ux/traiticons/trait_icon_17_mecha.tft_set17.png"
        (3 ∷ 4 ∷ 6 ∷ [])
    ∷ trait "Meeple"
        "https://raw.communitydragon.org/latest/game/assets/ux/traiticons/trait_icon_17_astronaut.tft_set17.png"
        (3 ∷ 5 ∷ 7 ∷ 10 ∷ [])
    ∷ trait "N.O.V.A."
        "https://raw.communitydragon.org/latest/game/assets/ux/traiticons/trait_icon_17_nova.tft_set17.png"
        (2 ∷ 5 ∷ [])
    ∷ trait "Oracle"
        "https://raw.communitydragon.org/latest/game/assets/ux/traiticons/trait_icon_12_arcana.tft_set12.png"
        (1 ∷ [])
    ∷ trait "Party Animal"
        "https://raw.communitydragon.org/latest/game/assets/ux/traiticons/trait_icon_17_partyanimal.tft_set17.png"
        (1 ∷ [])
    ∷ trait "Primordian"
        "https://raw.communitydragon.org/latest/game/assets/ux/traiticons/trait_icon_17_primordian.tft_set17.png"
        (2 ∷ 3 ∷ [])
    ∷ trait "Psionic"
        "https://raw.communitydragon.org/latest/game/assets/ux/traiticons/trait_icon_17_psyops.tft_set17.png"
        (2 ∷ 4 ∷ [])
    ∷ trait "Redeemer"
        "https://raw.communitydragon.org/latest/game/assets/ux/traiticons/trait_icon_17_redeemer.tft_set17.png"
        (1 ∷ [])
    ∷ trait "Replicator"
        "https://raw.communitydragon.org/latest/game/assets/ux/traiticons/trait_icon_17_replicator.tft_set17.png"
        (2 ∷ 4 ∷ [])
    ∷ trait "Rogue"
        "https://raw.communitydragon.org/latest/game/assets/ux/traiticons/trait_icon_17_rogue.tft_set17.png"
        (2 ∷ 3 ∷ 4 ∷ 5 ∷ [])
    ∷ trait "Shepherd"
        "https://raw.communitydragon.org/latest/game/assets/ux/traiticons/trait_icon_17_shepherd.tft_set17.png"
        (3 ∷ 5 ∷ 7 ∷ [])
    ∷ trait "Sniper"
        "https://raw.communitydragon.org/latest/game/assets/ux/traiticons/trait_icon_6_sniper.png"
        (2 ∷ 3 ∷ 4 ∷ [])
    ∷ trait "Space Groove"
        "https://raw.communitydragon.org/latest/game/assets/ux/traiticons/trait_icon_17_spacegroove.tft_set17.png"
        (1 ∷ 3 ∷ 5 ∷ 7 ∷ 10 ∷ [])
    ∷ trait "Stargazer"
        "https://raw.communitydragon.org/latest/game/assets/ux/traiticons/trait_icon_17_stargazer.tft_set17.png"
        (3 ∷ 4 ∷ 5 ∷ 6 ∷ [])
    ∷ trait "Stargazer"
        "https://raw.communitydragon.org/latest/game/assets/ux/traiticons/trait_icon_17_stargazer.tft_set17.png"
        (3 ∷ [])
    ∷ trait "Stargazer"
        "https://raw.communitydragon.org/latest/game/assets/ux/traiticons/trait_icon_17_stargazer.tft_set17.png"
        (3 ∷ 5 ∷ 7 ∷ [])
    ∷ trait "Stargazer"
        "https://raw.communitydragon.org/latest/game/assets/ux/traiticons/trait_icon_17_stargazer.tft_set17.png"
        (3 ∷ 5 ∷ 7 ∷ [])
    ∷ trait "Stargazer"
        "https://raw.communitydragon.org/latest/game/assets/ux/traiticons/trait_icon_17_stargazer.tft_set17.png"
        (3 ∷ [])
    ∷ trait "Stargazer"
        "https://raw.communitydragon.org/latest/game/assets/ux/traiticons/trait_icon_17_stargazer.tft_set17.png"
        (3 ∷ 5 ∷ [])
    ∷ trait "Stargazer"
        "https://raw.communitydragon.org/latest/game/assets/ux/traiticons/trait_icon_17_stargazer.tft_set17.png"
        (3 ∷ 4 ∷ 5 ∷ 6 ∷ 7 ∷ 8 ∷ 9 ∷ 10 ∷ 11 ∷ [])
    ∷ trait "Stargazer"
        "https://raw.communitydragon.org/latest/game/assets/ux/traiticons/trait_icon_17_stargazer.tft_set17.png"
        (3 ∷ 5 ∷ 7 ∷ 8 ∷ 9 ∷ 10 ∷ [])
    ∷ trait "Timebreaker"
        "https://raw.communitydragon.org/latest/game/assets/ux/traiticons/trait_icon_17_timebreaker.tft_set17.png"
        (2 ∷ 3 ∷ 4 ∷ [])
    ∷ trait "Vanguard"
        "https://raw.communitydragon.org/latest/game/assets/ux/traiticons/trait_icon_12_vanguard.tft_set12.png"
        (2 ∷ 4 ∷ 6 ∷ [])
    ∷ trait "Voyager"
        "https://raw.communitydragon.org/latest/game/assets/ux/traiticons/trait_icon_17_voyager.tft_set17.png"
        (2 ∷ 3 ∷ 4 ∷ 5 ∷ 6 ∷ [])
    ∷ []
