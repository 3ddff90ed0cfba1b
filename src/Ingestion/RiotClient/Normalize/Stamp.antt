-- ===== src/Ingestion/RiotClient/Normalize/Stamp.antt =====
-- The event that `normalize` of ingestion/riot_client.py makes.
use tft_stats_analytics.Base.{
  ℕ, ◌<◌, String, ◌≡◌, refl, subst, Bool, Option, none, some, List, [], ◌∷◌, arith, length,
}
use tft_stats_analytics.Base.Result.{ok, field_or, not_none, get_field, collect, >>=-eq-ok}
use tft_stats_analytics.Proto.{PlayerResult, MatchEvent}
use tft_stats_analytics.RiotPayload.{RawPlayer, RawInfo, RawMatch}
use tft_stats_analytics.Ingestion.RiotClient.{none_error}
use tft_stats_analytics.Ingestion.RiotClient.Normalize.{
  normalize_player, normalize_info, normalize, event_of, info_of, match_id_of, patch_of, int_of,
}
use tft_stats_analytics.Ingestion.RiotClient.Normalize.Shape.{length-collect, value_of_field}

abbrev pub players_or_none : Option RawInfo → List RawPlayer
players_or_none none = []
players_or_none (some info) = field_or [] info.participants

-- The participants of a payload.
abbrev pub participants_of : RawMatch → List RawPlayer
participants_of raw = players_or_none (info_of raw.info)

-- An event of the segment, with the one clock entry, and a player for each participant, of which
-- there is at least one.
pub record IsStamped (region tier node_id : String) (seq n : ℕ) (e : MatchEvent) : Type 0 where
  pub in_region : e.region ≡ region
  pub in_tier : e.tier ≡ tier
  pub stamp : e.clock ≡ ((node_id, seq) ∷ [])
  pub some_players : 0 < length e.players
  pub all_players : length e.players ≡ n

module _ (is_digit is_space : ℕ → Bool) (region tier node_id : String) (seq now : ℕ) where
  event_of-IsStamped :
      (raw : RawMatch) (info : RawInfo) (patch : String) (players : List PlayerResult)
      (e : MatchEvent)
      → event_of raw info region tier patch node_id seq now players ≡ ok (some e)
      → IsStamped region tier node_id seq (length players) e
  event_of-IsStamped raw info patch [] e h = absurd (ground arith)
  event_of-IsStamped raw info patch (p ∷ ps) e h =
      let (match_id, _, rest) = >>=-eq-ok (match_id_of raw.metadata) _ h in
      let (timestamp, _, done) = >>=-eq-ok (int_of now info.game_datetime) _ rest in
      record {
        in_region = ground arith;
        in_tier = ground arith;
        stamp = ground arith;
        some_players = ground arith;
        all_players = ground arith;
      }

  normalize_info-IsStamped :
      (raw : RawMatch) (info : RawInfo) (e : MatchEvent)
      → normalize_info is_digit is_space raw info region tier node_id seq now ≡ ok (some e)
      → IsStamped region tier node_id seq (length (field_or [] info.participants)) e
  unfolding normalize_info
  normalize_info-IsStamped raw info e h =
      let (gv, _, h1) = >>=-eq-ok (not_none none_error (get_field "" info.game_version)) _ h in
      let (ps, q, h2) = >>=-eq-ok (not_none none_error (get_field [] info.participants)) _ h1 in
      let (players, q', h3) = >>=-eq-ok (collect normalize_player ps) _ h2 in
      let counted : length players ≡ length (field_or [] info.participants) =
        rw (length-collect normalize_player ps players q', value_of_field [] info.participants ps q)
          refl in
      subst (λ n. IsStamped region tier node_id seq n e) counted
        (event_of-IsStamped raw info (patch_of is_digit is_space gv) players e h3)

  -- An event that `normalize` returns is of the region and the tier, its clock is the one entry for
  -- the node and the sequence number, and it has a player for each participant of the payload, at
  -- least one.
  pub normalize-IsStamped :
      (raw : RawMatch) (e : MatchEvent)
      → normalize is_digit is_space raw region tier node_id seq now ≡ ok (some e)
      → IsStamped region tier node_id seq (length (participants_of raw)) e
  unfolding normalize
  normalize-IsStamped raw e h = go (info_of raw.info) h
    where
      go :
          (o : Option RawInfo)
          → (elim o [
            | none ↦ ok none
            | some info ↦ normalize_info is_digit is_space raw info region tier node_id seq now
          ])
            ≡ ok (some e)
          → IsStamped region tier node_id seq (length (players_or_none o)) e
      go none k = absurd (ground arith)
      go (some info) k = normalize_info-IsStamped raw info e k
