-- ===== src/Ingestion/RiotClient/Normalize/Shape.antt =====
-- On which payloads `normalize` of ingestion/riot_client.py raises, and what it makes of the others.
use tft_stats_analytics.Base.{
  ℕ, suc, String, ◌≡◌, refl, subst, ◌∙◌, Bool, true, false, not, ◌&&◌, ◌||◌, Option, none, some,
  List, [], ◌∷◌, arith, length, any_of,
}
use tft_stats_analytics.Base.Result.{
  Result, ok, err, Field, missing, null, given, get_field, field_or, not_none, collect, ◌>>=◌,
}
use tft_stats_analytics.Proto.{BoardUnit, PlayerResult}
use tft_stats_analytics.RiotPayload.{RawUnit, RawPlayer, RawInfo, RawMatch}
use tft_stats_analytics.Ingestion.RiotClient.{none_error}
use tft_stats_analytics.Ingestion.RiotClient.Normalize.{
  normalize_unit, player_of, normalize_player, normalize_info, normalize, event_of, info_of,
  match_id_of, patch_of, int_of,
}

abbrev pub is_err : {E A : Type 0} → Result E A → Bool
is_err (ok a) = false
is_err (err e) = true

abbrev pub is_null : {A : Type 0} → Field A → Bool
is_null missing = false
is_null null = true
is_null (given a) = false

abbrev pub is_empty : {A : Type 0} → List A → Bool
is_empty [] = true
is_empty (x ∷ xs) = false

is_err-collect :
    {E A B : Type 0} (f : A → Result E B) (xs : List A)
    → is_err (collect f xs) ≡ any_of (λ x. is_err (f x)) xs
is_err-collect f [] = refl
is_err-collect {E = E} {B = B} f (x ∷ xs) = go (f x) (collect f xs) (is_err-collect f xs)
  where
    go :
        (r : Result E B) (rs : Result E (List B))
        → is_err rs ≡ any_of (λ y. is_err (f y)) xs
        → is_err (r >>= λ y. rs >>= λ ys. ok (y ∷ ys)) ≡ (is_err r || any_of (λ y. is_err (f y)) xs)
    go (ok y) (ok ys) h = h
    go (ok y) (err e) h = h
    go (err e) rs h = refl

any_of-same :
    {A : Type 0} (p q : A → Bool) (xs : List A) → ((x : A) → p x ≡ q x) → any_of p xs ≡ any_of q xs
any_of-same p q [] h = refl
any_of-same p q (x ∷ xs) h = rw (h x, any_of-same p q xs h) refl

-- A null where a number is needed.
abbrev pub unit_bad : RawUnit → Bool
unit_bad u = is_null u.tier

abbrev pub player_bad : RawPlayer → Bool
player_bad p =
    is_null p.units
    || (any_of unit_bad (field_or [] p.units) || (is_null p.placement || is_null p.last_round))

abbrev pub info_bad : RawMatch → RawInfo → Bool
info_bad raw info =
    is_null info.game_version
    || (is_null info.participants
        || (any_of player_bad (field_or [] info.participants)
            || not (is_empty (field_or [] info.participants))
              && (is_null raw.metadata || is_null info.game_datetime)))

abbrev pub bad_if : RawMatch → Option RawInfo → Bool
bad_if raw none = false
bad_if raw (some info) = info_bad raw info

-- The payload has a null where the code needs a value.
abbrev pub match_bad : RawMatch → Bool
match_bad raw = bad_if raw (info_of raw.info)

unit_bad-eq : (u : RawUnit) → is_err (normalize_unit u) ≡ unit_bad u
unfolding normalize_unit
unit_bad-eq u = ground arith

is_err-bind :
    {E A B : Type 0} (m : Result E A) (f : A → Result E B) (b : Bool)
    → ((a : A) → m ≡ ok a → is_err (f a) ≡ b)
    → is_err (m >>= f) ≡ (is_err m || b)
is_err-bind (ok a) f b h = h a refl
is_err-bind (err e) f b h = refl

is_err-not_none :
    {A : Type 0} (default : A) (f : Field A)
    → is_err (not_none none_error (get_field default f)) ≡ is_null f
is_err-not_none default missing = refl
is_err-not_none default null = refl
is_err-not_none default (given a) = refl

pub value_of_field :
    {A : Type 0} (default : A) (f : Field A) (a : A)
    → not_none none_error (get_field default f) ≡ ok a
    → a ≡ field_or default f
value_of_field default missing a h = cc
value_of_field default null a h = absurd (cc)
value_of_field default (given b) a h = cc

any_bad-collect :
    (units : List RawUnit) → is_err (collect normalize_unit units) ≡ any_of unit_bad units
any_bad-collect units =
    is_err-collect normalize_unit units
    ∙ any_of-same (λ u. is_err (normalize_unit u)) unit_bad units unit_bad-eq

player_of-bad :
    (p : RawPlayer) (units : List BoardUnit)
    → is_err (player_of p units) ≡ (is_null p.placement || is_null p.last_round)
player_of-bad p units =
    is_err-bind (int_of 8 p.placement) _ (is_null p.last_round) (λ placement _.
      is_err-bind (int_of 0 p.last_round) _ false (λ rounds _. refl)
      ∙ ground (arith, is_err-not_none 0 p.last_round))
    ∙ rw (is_err-not_none 8 p.placement) refl

player_bad-eq : (p : RawPlayer) → is_err (normalize_player p) ≡ player_bad p
unfolding normalize_player
player_bad-eq p =
    is_err-bind (not_none none_error (get_field [] p.units)) _
      (any_of unit_bad (field_or [] p.units) || (is_null p.placement || is_null p.last_round))
      (λ raw e.
        is_err-bind (collect normalize_unit raw) (player_of p)
          (is_null p.placement || is_null p.last_round) (λ units _. player_of-bad p units)
        ∙ rw (any_bad-collect raw, value_of_field [] p.units raw e) refl)
    ∙ rw (is_err-not_none [] p.units) refl

event_of-bad :
    (raw : RawMatch) (info : RawInfo) (region tier patch node_id : String) (seq now : ℕ)
    (players : List PlayerResult)
    → is_err (event_of raw info region tier patch node_id seq now players)
      ≡ (not (is_empty players) && (is_null raw.metadata || is_null info.game_datetime))
event_of-bad raw info region tier patch node_id seq now [] = refl
event_of-bad raw info region tier patch node_id seq now (p ∷ ps) =
    is_err-bind (match_id_of raw.metadata) _ (is_null info.game_datetime) (λ match_id _.
      is_err-bind (int_of now info.game_datetime) _ false (λ t _. refl)
      ∙ ground (arith, is_err-not_none now info.game_datetime))
    ∙ ground arith

pub length-collect :
    {E A B : Type 0} (f : A → Result E B) (xs : List A) (ys : List B)
    → collect f xs ≡ ok ys
    → length ys ≡ length xs
length-collect f [] ys h = ground arith
length-collect {E = E} {B = B} f (x ∷ xs) ys h = go (f x) (collect f xs) (length-collect f xs) h
  where
    go :
        (r : Result E B) (rs : Result E (List B))
        → ((zs : List B) → rs ≡ ok zs → length zs ≡ length xs)
        → (r >>= λ y. rs >>= λ zs. ok (y ∷ zs)) ≡ ok ys
        → length ys ≡ suc (length xs)
    go (ok y) (ok zs) e k =
        let ih : length zs ≡ length xs = e zs refl in
        let same : (y ∷ zs) ≡ ys = cc in subst (λ l. length l ≡ suc (length xs)) same (ground arith)
    go (ok y) (err _) e k = absurd (cc)
    go (err _) rs e k = absurd (cc)

is_empty_of_length :
    {A B : Type 0} (xs : List A) (ys : List B) → length ys ≡ length xs → is_empty ys ≡ is_empty xs
is_empty_of_length [] [] h = refl
is_empty_of_length [] (y ∷ ys) h = absurd (omega arith)
is_empty_of_length (x ∷ xs) [] h = absurd (omega arith)
is_empty_of_length (x ∷ xs) (y ∷ ys) h = refl

module _ (is_digit is_space : ℕ → Bool) (region tier node_id : String) (seq now : ℕ) where
  info_bad-eq :
      (raw : RawMatch) (info : RawInfo)
      → is_err (normalize_info is_digit is_space raw info region tier node_id seq now)
        ≡ info_bad raw info
  unfolding normalize_info
  info_bad-eq raw info =
      is_err-bind (not_none none_error (get_field "" info.game_version)) _
        (is_null info.participants
          || (any_of player_bad (field_or [] info.participants)
              || not (is_empty (field_or [] info.participants))
                && (is_null raw.metadata || is_null info.game_datetime)))
        (λ gv _.
          is_err-bind (not_none none_error (get_field [] info.participants)) _
            (any_of player_bad (field_or [] info.participants)
              || not (is_empty (field_or [] info.participants))
                && (is_null raw.metadata || is_null info.game_datetime))
            (λ ps e.
              players_bad-eq raw info (patch_of is_digit is_space gv) ps
                (value_of_field [] info.participants ps e))
          ∙ rw (is_err-not_none [] info.participants) refl)
      ∙ rw (is_err-not_none "" info.game_version) refl
    where
      players_bad-eq :
          (raw : RawMatch) (info : RawInfo) (patch : String) (ps : List RawPlayer)
          → ps ≡ field_or [] info.participants
          → is_err
              (collect normalize_player ps >>= event_of raw info region tier patch node_id seq now)
            ≡ (any_of player_bad (field_or [] info.participants)
                || not (is_empty (field_or [] info.participants))
                  && (is_null raw.metadata || is_null info.game_datetime))
      players_bad-eq raw info patch ps same =
          is_err-bind (collect normalize_player ps) _
            (not (is_empty (field_or [] info.participants))
              && (is_null raw.metadata || is_null info.game_datetime))
            (λ players e.
              event_of-bad raw info region tier patch node_id seq now players
              ∙ rw
                  (
                    is_empty_of_length ps players (length-collect normalize_player ps players e),
                    same,
                  )
                  refl)
          ∙ rw
              (
                is_err-collect normalize_player ps,
                any_of-same (λ p. is_err (normalize_player p)) player_bad ps player_bad-eq,
                same,
              )
              refl

  -- `normalize` raises exactly on the payloads that have a null where it needs a value: for the
  -- version, the participants, a player's units, placement or last round, or a unit's tier, and, if
  -- there are players, for the metadata or the time.
  pub normalize_raises :
      (raw : RawMatch)
      → is_err (normalize is_digit is_space raw region tier node_id seq now) ≡ match_bad raw
  unfolding normalize
  normalize_raises raw = go (info_of raw.info)
    where
      go :
          (o : Option RawInfo)
          → is_err (elim o [
            | none ↦ ok none
            | some info ↦ normalize_info is_digit is_space raw info region tier node_id seq now
          ])
            ≡ bad_if raw o
      go none = refl
      go (some info) = info_bad-eq raw info
