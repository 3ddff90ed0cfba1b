-- ===== src/TftData/Champions.antt =====
-- The champion roster of common/tft_data.py, with the tables derived from it.
use tft_stats_analytics.Base.{ℕ, String, List, [], ◌∷◌, map}

pub record Champion : Type 0 where
  pub champion_id : String
  pub cost : ℕ
  pub traits : List String

abbrev champion : String → ℕ → List String → Champion
champion champion_id cost traits = record {
  champion_id = champion_id;
  cost = cost;
  traits = traits;
}

-- `CHAMPIONS`
unfoldable pub champions : List Champion
champions =
    champion "TFT17_Aatrox" 1 ("N.O.V.A." ∷ "Bastion" ∷ [])
    ∷ champion "TFT17_Briar" 1 ("Anima" ∷ "Primordian" ∷ "Rogue" ∷ [])
    ∷ champion "TFT17_Caitlyn" 1 ("N.O.V.A." ∷ "Fateweaver" ∷ [])
    ∷ champion "TFT17_Chogath" 1 ("Dark Star" ∷ "Brawler" ∷ [])
    ∷ champion "TFT17_Ezreal" 1 ("Timebreaker" ∷ "Sniper" ∷ [])
    ∷ champion "TFT17_Leona" 1 ("Arbiter" ∷ "Vanguard" ∷ [])
    ∷ champion "TFT17_Lissandra" 1 ("Dark Star" ∷ "Shepherd" ∷ "Replicator" ∷ [])
    ∷ champion "TFT17_Nasus" 1 ("Space Groove" ∷ "Vanguard" ∷ [])
    ∷ champion "TFT17_Poppy" 1 ("Meeple" ∷ "Bastion" ∷ [])
    ∷ champion "TFT17_RekSai" 1 ("Primordian" ∷ "Brawler" ∷ [])
    ∷ champion "TFT17_Talon" 1 ("Stargazer" ∷ "Rogue" ∷ [])
    ∷ champion "TFT17_Teemo" 1 ("Space Groove" ∷ "Shepherd" ∷ [])
    ∷ champion "TFT17_TwistedFate" 1 ("Stargazer" ∷ "Fateweaver" ∷ [])
    ∷ champion "TFT17_Veigar" 1 ("Meeple" ∷ "Replicator" ∷ [])
    ∷ champion "TFT17_Akali" 2 ("N.O.V.A." ∷ "Marauder" ∷ [])
    ∷ champion "TFT17_Belveth" 2 ("Primordian" ∷ "Challenger" ∷ "Marauder" ∷ [])
    ∷ champion "TFT17_Gnar" 2 ("Meeple" ∷ "Sniper" ∷ [])
    ∷ champion "TFT17_Gragas" 2 ("Psionic" ∷ "Brawler" ∷ [])
    ∷ champion "TFT17_Gwen" 2 ("Space Groove" ∷ "Rogue" ∷ [])
    ∷ champion "TFT17_Jax" 2 ("Stargazer" ∷ "Bastion" ∷ [])
    ∷ champion "TFT17_Jinx" 2 ("Anima" ∷ "Challenger" ∷ [])
    ∷ champion "TFT17_IvernMinion" 2 ("Meeple" ∷ "Shepherd" ∷ "Voyager" ∷ [])
    ∷ champion "TFT17_Milio" 2 ("Timebreaker" ∷ "Fateweaver" ∷ [])
    ∷ champion "TFT17_Mordekaiser" 2 ("Dark Star" ∷ "Conduit" ∷ "Vanguard" ∷ [])
    ∷ champion "TFT17_Pantheon" 2 ("Timebreaker" ∷ "Brawler" ∷ "Replicator" ∷ [])
    ∷ champion "TFT17_Pyke" 2 ("Psionic" ∷ "Voyager" ∷ [])
    ∷ champion "TFT17_Zoe" 2 ("Arbiter" ∷ "Conduit" ∷ [])
    ∷ champion "TFT17_Aurora" 3 ("Anima" ∷ "Voyager" ∷ [])
    ∷ champion "TFT17_Diana" 3 ("Arbiter" ∷ "Challenger" ∷ [])
    ∷ champion "TFT17_Fizz" 3 ("Meeple" ∷ "Rogue" ∷ [])
    ∷ champion "TFT17_Illaoi" 3 ("Anima" ∷ "Vanguard" ∷ "Shepherd" ∷ [])
    ∷ champion "TFT17_Kaisa" 3 ("Dark Star" ∷ "Rogue" ∷ [])
    ∷ champion "TFT17_Lulu" 3 ("Stargazer" ∷ "Replicator" ∷ [])
    ∷ champion "TFT17_Maokai" 3 ("N.O.V.A." ∷ "Brawler" ∷ [])
    ∷ champion "TFT17_MissFortune" 3 ("Gun Goddess" ∷ "Choose Trait" ∷ [])
    ∷ champion "TFT17_Ornn" 3 ("Space Groove" ∷ "Bastion" ∷ [])
    ∷ champion "TFT17_Rhaast" 3 ("Redeemer" ∷ [])
    ∷ champion "TFT17_Samira" 3 ("Space Groove" ∷ "Sniper" ∷ [])
    ∷ champion "TFT17_Urgot" 3 ("Mecha" ∷ "Brawler" ∷ "Marauder" ∷ [])
    ∷ champion "TFT17_Viktor" 3 ("Psionic" ∷ "Conduit" ∷ [])
    ∷ champion "TFT17_AurelionSol" 4 ("Mecha" ∷ "Conduit" ∷ [])
    ∷ champion "TFT17_Corki" 4 ("Meeple" ∷ "Fateweaver" ∷ [])
    ∷ champion "TFT17_Karma" 4 ("Dark Star" ∷ "Voyager" ∷ [])
    ∷ champion "TFT17_Kindred" 4 ("N.O.V.A." ∷ "Challenger" ∷ [])
    ∷ champion "TFT17_Leblanc" 4 ("Arbiter" ∷ "Shepherd" ∷ [])
    ∷ champion "TFT17_MasterYi" 4 ("Psionic" ∷ "Marauder" ∷ [])
    ∷ champion "TFT17_Morgana" 4 ("Dark Lady" ∷ [])
    ∷ champion "TFT17_Nami" 4 ("Space Groove" ∷ "Replicator" ∷ [])
    ∷ champion "TFT17_Nunu" 4 ("Stargazer" ∷ "Vanguard" ∷ [])
    ∷ champion "TFT17_Rammus" 4 ("Meeple" ∷ "Bastion" ∷ [])
    ∷ champion "TFT17_Riven" 4 ("Timebreaker" ∷ "Rogue" ∷ [])
    ∷ champion "TFT17_TahmKench" 4 ("Oracle" ∷ "Brawler" ∷ [])
    ∷ champion "TFT17_Galio" 4 ("Mecha" ∷ "Voyager" ∷ [])
    ∷ champion "TFT17_Xayah" 4 ("Stargazer" ∷ "Sniper" ∷ [])
    ∷ champion "TFT17_Bard" 5 ("Meeple" ∷ "Conduit" ∷ [])
    ∷ champion "TFT17_Blitzcrank" 5 ("Party Animal" ∷ "Space Groove" ∷ "Vanguard" ∷ [])
    ∷ champion "TFT17_Fiora" 5 ("Divine Duelist" ∷ "Anima" ∷ "Marauder" ∷ [])
    ∷ champion "TFT17_Graves" 5 ("Factory New" ∷ [])
    ∷ champion "TFT17_Jhin" 5 ("Dark Star" ∷ "Eradicator" ∷ "Sniper" ∷ [])
    ∷ champion "TFT17_Shen" 5 ("Bulwark" ∷ "Bastion" ∷ [])
    ∷ champion "TFT17_Sona" 5 ("Commander" ∷ "Psionic" ∷ "Shepherd" ∷ [])
    ∷ champion "TFT17_Vex" 5 ("Doomer" ∷ [])
    ∷ champion "TFT17_Zed" 5 ("Galaxy Hunter" ∷ [])
    ∷ []

-- `CHAMPION_IDS`
unfoldable pub champion_ids : List String
unfolding champions
champion_ids = map (λ c. c.champion_id) champions

-- `CHAMPION_COST`
unfoldable pub champion_cost : List (String × ℕ)
unfolding champions
champion_cost = map (λ c. (c.champion_id, c.cost)) champions

-- `CHAMPION_TRAITS`
unfoldable pub champion_traits : List (String × List String)
unfolding champions
champion_traits = map (λ c. (c.champion_id, c.traits)) champions
