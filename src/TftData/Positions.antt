-- ===== src/TftData/Positions.antt =====
-- Combat roles and attack ranges of common/tft_data.py. Every range is a whole number.
use tft_stats_analytics.Base.{ℕ, String, List, [], ◌∷◌}

abbrev role : String → String → String × String
role champion value = (champion, value)

-- `CHAMPION_ROLE`
unfoldable pub champion_role : List (String × String)
champion_role =
    role "TFT17_Aatrox" "ADTank"
    ∷ role "TFT17_Briar" "ADFighter"
    ∷ role "TFT17_Caitlyn" "ADSpecialist"
    ∷ role "TFT17_Chogath" "APTank"
    ∷ role "TFT17_Ezreal" "ADCaster"
    ∷ role "TFT17_Leona" "APTank"
    ∷ role "TFT17_Lissandra" "APCaster"
    ∷ role "TFT17_Nasus" "APTank"
    ∷ role "TFT17_Poppy" "APTank"
    ∷ role "TFT17_RekSai" "APTank"
    ∷ role "TFT17_Talon" "ADReaper"
    ∷ role "TFT17_Teemo" "APCarry"
    ∷ role "TFT17_TwistedFate" "APCaster"
    ∷ role "TFT17_Veigar" "APCaster"
    ∷ role "TFT17_Akali" "ADFighter"
    ∷ role "TFT17_Belveth" "ADFighter"
    ∷ role "TFT17_Gnar" "ADSpecialist"
    ∷ role "TFT17_Gragas" "APTank"
    ∷ role "TFT17_Gwen" "APReaper"
    ∷ role "TFT17_Jax" "APTank"
    ∷ role "TFT17_Jinx" "ADCarry"
    ∷ role "TFT17_IvernMinion" "APTank"
    ∷ role "TFT17_Milio" "APCaster"
    ∷ role "TFT17_Mordekaiser" "APTank"
    ∷ role "TFT17_Pantheon" "ADTank"
    ∷ role "TFT17_Pyke" "ADReaper"
    ∷ role "TFT17_Zoe" "APCaster"
    ∷ role "TFT17_Aurora" "APCaster"
    ∷ role "TFT17_Diana" "APFighter"
    ∷ role "TFT17_Fizz" "APReaper"
    ∷ role "TFT17_Illaoi" "APTank"
    ∷ role "TFT17_Kaisa" "ADCaster"
    ∷ role "TFT17_Lulu" "APCaster"
    ∷ role "TFT17_Maokai" "APTank"
    ∷ role "TFT17_MissFortune" ""
    ∷ role "TFT17_Ornn" "APTank"
    ∷ role "TFT17_Rhaast" "ADTank"
    ∷ role "TFT17_Samira" "ADCaster"
    ∷ role "TFT17_Urgot" "ADFighter"
    ∷ role "TFT17_Viktor" "APCaster"
    ∷ role "TFT17_AurelionSol" "APCaster"
    ∷ role "TFT17_Corki" "ADCaster"
    ∷ role "TFT17_Karma" "APCaster"
    ∷ role "TFT17_Kindred" "ADCarry"
    ∷ role "TFT17_Leblanc" "APCarry"
    ∷ role "TFT17_MasterYi" "ADFighter"
    ∷ role "TFT17_Morgana" "APTank"
    ∷ role "TFT17_Nami" "APCaster"
    ∷ role "TFT17_Nunu" "APTank"
    ∷ role "TFT17_Rammus" "APTank"
    ∷ role "TFT17_Riven" "HFighter"
    ∷ role "TFT17_TahmKench" "APTank"
    ∷ role "TFT17_Galio" "ADTank"
    ∷ role "TFT17_Xayah" "ADCarry"
    ∷ role "TFT17_Bard" "APCaster"
    ∷ role "TFT17_Blitzcrank" "APFighter"
    ∷ role "TFT17_Fiora" "ADFighter"
    ∷ role "TFT17_Graves" "ADCarry"
    ∷ role "TFT17_Jhin" "ADCarry"
    ∷ role "TFT17_Shen" "APFighter"
    ∷ role "TFT17_Sona" "APCaster"
    ∷ role "TFT17_Vex" "APCarry"
    ∷ role "TFT17_Zed" "ADFighter"
    ∷ []

abbrev range : String → ℕ → String × ℕ
range champion hexes = (champion, hexes)

-- `CHAMPION_RANGE`
unfoldable pub champion_range : List (String × ℕ)
champion_range =
    range "TFT17_Aatrox" 1
    ∷ range "TFT17_Briar" 1
    ∷ range "TFT17_Caitlyn" 4
    ∷ range "TFT17_Chogath" 1
    ∷ range "TFT17_Ezreal" 6
    ∷ range "TFT17_Leona" 1
    ∷ range "TFT17_Lissandra" 4
    ∷ range "TFT17_Nasus" 1
    ∷ range "TFT17_Poppy" 1
    ∷ range "TFT17_RekSai" 1
    ∷ range "TFT17_Talon" 1
    ∷ range "TFT17_Teemo" 4
    ∷ range "TFT17_TwistedFate" 4
    ∷ range "TFT17_Veigar" 4
    ∷ range "TFT17_Akali" 1
    ∷ range "TFT17_Belveth" 2
    ∷ range "TFT17_Gnar" 6
    ∷ range "TFT17_Gragas" 1
    ∷ range "TFT17_Gwen" 2
    ∷ range "TFT17_Jax" 1
    ∷ range "TFT17_Jinx" 4
    ∷ range "TFT17_IvernMinion" 1
    ∷ range "TFT17_Milio" 4
    ∷ range "TFT17_Mordekaiser" 1
    ∷ range "TFT17_Pantheon" 1
    ∷ range "TFT17_Pyke" 1
    ∷ range "TFT17_Zoe" 4
    ∷ range "TFT17_Aurora" 4
    ∷ range "TFT17_Diana" 1
    ∷ range "TFT17_Fizz" 1
    ∷ range "TFT17_Illaoi" 1
    ∷ range "TFT17_Kaisa" 4
    ∷ range "TFT17_Lulu" 4
    ∷ range "TFT17_Maokai" 1
    ∷ range "TFT17_MissFortune" 6
    ∷ range "TFT17_Ornn" 1
    ∷ range "TFT17_Rhaast" 1
    ∷ range "TFT17_Samira" 6
    ∷ range "TFT17_Urgot" 2
    ∷ range "TFT17_Viktor" 4
    ∷ range "TFT17_AurelionSol" 6
    ∷ range "TFT17_Corki" 4
    ∷ range "TFT17_Karma" 4
    ∷ range "TFT17_Kindred" 6
    ∷ range "TFT17_Leblanc" 4
    ∷ range "TFT17_MasterYi" 1
    ∷ range "TFT17_Morgana" 1
    ∷ range "TFT17_Nami" 4
    ∷ range "TFT17_Nunu" 1
    ∷ range "TFT17_Rammus" 1
    ∷ range "TFT17_Riven" 1
    ∷ range "TFT17_TahmKench" 1
    ∷ range "TFT17_Galio" 1
    ∷ range "TFT17_Xayah" 6
    ∷ range "TFT17_Bard" 4
    ∷ range "TFT17_Blitzcrank" 1
    ∷ range "TFT17_Fiora" 1
    ∷ range "TFT17_Graves" 4
    ∷ range "TFT17_Jhin" 6
    ∷ range "TFT17_Shen" 1
    ∷ range "TFT17_Sona" 4
    ∷ range "TFT17_Vex" 6
    ∷ range "TFT17_Zed" 1
    ∷ []
