-- ===== src/TftData/Comps.antt =====
-- The named compositions of common/tft_data.py.
use tft_stats_analytics.Base.{ℕ, String, Option, none, some, List, [], ◌∷◌}

pub record Comp : Type 0 where
  pub comp_id : String
  pub name : String
  pub carry : Option String
  pub level : ℕ
  pub units : List String

abbrev comp : String → String → Option String → ℕ → List String → Comp
comp comp_id name carry level units = record {
  comp_id = comp_id;
  name = name;
  carry = carry;
  level = level;
  units = units;
}

-- `COMPS`
unfoldable pub comps : List Comp
comps =
    comp "TFT17_Bard" "Bard" (some "TFT17_Bard") 9 (
      "TFT17_Bard" ∷ "TFT17_AurelionSol" ∷ "TFT17_Corki" ∷ "TFT17_Rammus" ∷ "TFT17_Fizz"
      ∷ "TFT17_Viktor" ∷ "TFT17_Gnar" ∷ "TFT17_IvernMinion" ∷ "TFT17_Mordekaiser" ∷ [])
    ∷ comp "TFT17_Blitzcrank" "Blitzcrank" (some "TFT17_Blitzcrank") 9 (
        "TFT17_Blitzcrank" ∷ "TFT17_Nami" ∷ "TFT17_Nunu" ∷ "TFT17_Illaoi" ∷ "TFT17_Ornn"
        ∷ "TFT17_Samira" ∷ "TFT17_Gwen" ∷ "TFT17_Mordekaiser" ∷ "TFT17_Leona" ∷ [])
    ∷ comp "TFT17_Fiora" "Fiora" (some "TFT17_Fiora") 9 (
        "TFT17_Fiora" ∷ "TFT17_MasterYi" ∷ "TFT17_Aurora" ∷ "TFT17_Illaoi" ∷ "TFT17_Urgot"
        ∷ "TFT17_Akali" ∷ "TFT17_Belveth" ∷ "TFT17_Jinx" ∷ "TFT17_Briar" ∷ [])
    ∷ comp "TFT17_Graves" "Graves" (some "TFT17_Graves") 9 (
        "TFT17_Graves" ∷ "TFT17_Aatrox" ∷ "TFT17_Briar" ∷ "TFT17_Caitlyn" ∷ "TFT17_Chogath"
        ∷ "TFT17_Ezreal" ∷ "TFT17_Leona" ∷ "TFT17_Lissandra" ∷ "TFT17_Nasus" ∷ [])
    ∷ comp "TFT17_Jhin" "Jhin" (some "TFT17_Jhin") 9 (
        "TFT17_Jhin" ∷ "TFT17_Karma" ∷ "TFT17_Xayah" ∷ "TFT17_Kaisa" ∷ "TFT17_Samira" ∷ "TFT17_Gnar"
        ∷ "TFT17_Mordekaiser" ∷ "TFT17_Chogath" ∷ "TFT17_Ezreal" ∷ [])
    ∷ comp "TFT17_Shen" "Shen" (some "TFT17_Shen") 9 (
        "TFT17_Shen" ∷ "TFT17_Rammus" ∷ "TFT17_Ornn" ∷ "TFT17_Jax" ∷ "TFT17_Aatrox" ∷ "TFT17_Poppy"
        ∷ "TFT17_Briar" ∷ "TFT17_Caitlyn" ∷ "TFT17_Chogath" ∷ [])
    ∷ comp "TFT17_Sona" "Sona" (some "TFT17_Sona") 9 (
        "TFT17_Sona" ∷ "TFT17_Leblanc" ∷ "TFT17_MasterYi" ∷ "TFT17_Illaoi" ∷ "TFT17_Viktor"
        ∷ "TFT17_Gragas" ∷ "TFT17_IvernMinion" ∷ "TFT17_Pyke" ∷ "TFT17_Lissandra" ∷ [])
    ∷ comp "TFT17_Vex" "Vex" (some "TFT17_Vex") 9 (
        "TFT17_Vex" ∷ "TFT17_Aatrox" ∷ "TFT17_Briar" ∷ "TFT17_Caitlyn" ∷ "TFT17_Chogath"
        ∷ "TFT17_Ezreal" ∷ "TFT17_Leona" ∷ "TFT17_Lissandra" ∷ "TFT17_Nasus" ∷ [])
    ∷ comp "TFT17_Zed" "Zed" (some "TFT17_Zed") 9 (
        "TFT17_Zed" ∷ "TFT17_Aatrox" ∷ "TFT17_Briar" ∷ "TFT17_Caitlyn" ∷ "TFT17_Chogath"
        ∷ "TFT17_Ezreal" ∷ "TFT17_Leona" ∷ "TFT17_Lissandra" ∷ "TFT17_Nasus" ∷ [])
    ∷ comp "TFT17_AurelionSol" "Aurelion Sol" (some "TFT17_AurelionSol") 8 (
        "TFT17_AurelionSol" ∷ "TFT17_Bard" ∷ "TFT17_Galio" ∷ "TFT17_Urgot" ∷ "TFT17_Viktor"
        ∷ "TFT17_Mordekaiser" ∷ "TFT17_Zoe" ∷ "TFT17_Aatrox" ∷ [])
    ∷ comp "TFT17_Corki" "Corki" (some "TFT17_Corki") 8 (
        "TFT17_Corki" ∷ "TFT17_Bard" ∷ "TFT17_Rammus" ∷ "TFT17_Fizz" ∷ "TFT17_Gnar"
        ∷ "TFT17_IvernMinion" ∷ "TFT17_Milio" ∷ "TFT17_Caitlyn" ∷ [])
    ∷ comp "TFT17_Galio" "Galio" (some "TFT17_Galio") 8 (
        "TFT17_Galio" ∷ "TFT17_AurelionSol" ∷ "TFT17_Karma" ∷ "TFT17_Aurora" ∷ "TFT17_Urgot"
        ∷ "TFT17_IvernMinion" ∷ "TFT17_Pyke" ∷ "TFT17_Aatrox" ∷ [])
    ∷ comp "TFT17_Karma" "Karma" (some "TFT17_Karma") 8 (
        "TFT17_Karma" ∷ "TFT17_Jhin" ∷ "TFT17_Galio" ∷ "TFT17_Aurora" ∷ "TFT17_Kaisa"
        ∷ "TFT17_IvernMinion" ∷ "TFT17_Mordekaiser" ∷ "TFT17_Pyke" ∷ [])
    ∷ comp "TFT17_Kindred" "Kindred" (some "TFT17_Kindred") 8 (
        "TFT17_Kindred" ∷ "TFT17_Diana" ∷ "TFT17_Maokai" ∷ "TFT17_Akali" ∷ "TFT17_Belveth"
        ∷ "TFT17_Jinx" ∷ "TFT17_Aatrox" ∷ "TFT17_Caitlyn" ∷ [])
    ∷ comp "TFT17_Leblanc" "Leblanc" (some "TFT17_Leblanc") 8 (
        "TFT17_Leblanc" ∷ "TFT17_Sona" ∷ "TFT17_Diana" ∷ "TFT17_Illaoi" ∷ "TFT17_IvernMinion"
        ∷ "TFT17_Zoe" ∷ "TFT17_Leona" ∷ "TFT17_Lissandra" ∷ [])
    ∷ comp "TFT17_MasterYi" "Master Yi" (some "TFT17_MasterYi") 8 (
        "TFT17_MasterYi" ∷ "TFT17_Fiora" ∷ "TFT17_Sona" ∷ "TFT17_Urgot" ∷ "TFT17_Viktor"
        ∷ "TFT17_Akali" ∷ "TFT17_Belveth" ∷ "TFT17_Gragas" ∷ [])
    ∷ comp "TFT17_Morgana" "Morgana" (some "TFT17_Morgana") 8 (
        "TFT17_Morgana" ∷ "TFT17_Aatrox" ∷ "TFT17_Briar" ∷ "TFT17_Caitlyn" ∷ "TFT17_Chogath"
        ∷ "TFT17_Ezreal" ∷ "TFT17_Leona" ∷ "TFT17_Lissandra" ∷ [])
    ∷ comp "TFT17_Nami" "Nami" (some "TFT17_Nami") 8 (
        "TFT17_Nami" ∷ "TFT17_Blitzcrank" ∷ "TFT17_Lulu" ∷ "TFT17_Ornn" ∷ "TFT17_Samira"
        ∷ "TFT17_Gwen" ∷ "TFT17_Pantheon" ∷ "TFT17_Lissandra" ∷ [])
    ∷ comp "TFT17_Nunu" "Nunu" (some "TFT17_Nunu") 8 (
        "TFT17_Nunu" ∷ "TFT17_Blitzcrank" ∷ "TFT17_Xayah" ∷ "TFT17_Illaoi" ∷ "TFT17_Lulu"
        ∷ "TFT17_Jax" ∷ "TFT17_Mordekaiser" ∷ "TFT17_Leona" ∷ [])
    ∷ comp "TFT17_Rammus" "Rammus" (some "TFT17_Rammus") 8 (
        "TFT17_Rammus" ∷ "TFT17_Bard" ∷ "TFT17_Shen" ∷ "TFT17_Corki" ∷ "TFT17_Fizz" ∷ "TFT17_Ornn"
        ∷ "TFT17_Gnar" ∷ "TFT17_IvernMinion" ∷ [])
    ∷ comp "TFT17_Riven" "Riven" (some "TFT17_Riven") 8 (
        "TFT17_Riven" ∷ "TFT17_Fizz" ∷ "TFT17_Kaisa" ∷ "TFT17_Gwen" ∷ "TFT17_Milio"
        ∷ "TFT17_Pantheon" ∷ "TFT17_Briar" ∷ "TFT17_Ezreal" ∷ [])
    ∷ comp "TFT17_TahmKench" "Tahm Kench" (some "TFT17_TahmKench") 8 (
        "TFT17_TahmKench" ∷ "TFT17_Maokai" ∷ "TFT17_Urgot" ∷ "TFT17_Gragas" ∷ "TFT17_Pantheon"
        ∷ "TFT17_Chogath" ∷ "TFT17_RekSai" ∷ "TFT17_Aatrox" ∷ [])
    ∷ comp "TFT17_Xayah" "Xayah" (some "TFT17_Xayah") 8 (
        "TFT17_Xayah" ∷ "TFT17_Jhin" ∷ "TFT17_Nunu" ∷ "TFT17_Lulu" ∷ "TFT17_Samira" ∷ "TFT17_Gnar"
        ∷ "TFT17_Jax" ∷ "TFT17_Ezreal" ∷ [])
    ∷ comp "Fast9" "Fast 9" none 9 (
        "TFT17_Bard" ∷ "TFT17_Blitzcrank" ∷ "TFT17_Fiora" ∷ "TFT17_Graves" ∷ "TFT17_Jhin"
        ∷ "TFT17_Shen" ∷ "TFT17_Sona" ∷ "TFT17_Vex" ∷ "TFT17_Zed" ∷ [])
    ∷ []
