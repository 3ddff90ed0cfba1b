-- ===== src/Api/Riot/Rank/History.antt =====
-- The history that `record_rank` of api/riot.py keeps of a player.
use tft_stats_analytics.Base.{
  ℕ, zero, suc, ◌-◌, ◌≤◌, ◌<◌, String, ◌≡◌, true, false, List, [], ◌∷◌, arith, str_eq, Bool-cases,
  inl, inr, if◌then◌else◌, length, drop, ◌==◌, length-drop,
}
use tft_stats_analytics.Base.Dict.{get_or, get_or-insert, string_eq, beq_refl}
use tft_stats_analytics.Api.Riot.Rank.{
  Snapshot, snapshot, same_signature, add_snapshot, keep_last, record_rank, Rank, RankStore,
  history_limit,
}

-- The first entry is dated after `d`.
abbrev pub IsAfter : ℕ → List Snapshot → Type 0
IsAfter d [] = Unit
IsAfter d (h ∷ hist) = d < h.date

-- No date comes twice, and they ascend.
abbrev pub IsAscending : List Snapshot → Type 0
IsAscending [] = Unit
IsAscending (h ∷ hist) = IsAfter h.date hist × IsAscending hist

-- Nothing is dated later than `today`.
abbrev pub IsPast : ℕ → List Snapshot → Type 0
IsPast today [] = Unit
IsPast today (h ∷ hist) = (h.date ≤ today) × IsPast today hist

-- The last entry has the tier, the division and the points of `snap`.
abbrev pub EndsWith : Snapshot → List Snapshot → Type 0
EndsWith snap [] = ⊥
EndsWith snap (h ∷ []) = same_signature h snap ≡ true
EndsWith snap (h ∷ h' ∷ hist) = EndsWith snap (h' ∷ hist)

same_refl : (s : Snapshot) → same_signature s s ≡ true
same_refl s = ground (arith, beq_refl s.tier, beq_refl s.division)

-- What a history must keep: dates that ascend and are not in the future.
abbrev pub IsHistory : ℕ → List Snapshot → Type 0
IsHistory today hist = IsAscending hist × IsPast today hist

-- The three outcomes on the last entry.
abbrev last_step : Snapshot → Snapshot → List Snapshot
last_step snap h =
    if h.date == snap.date
    then snap ∷ []
    else if same_signature h snap
    then h ∷ []
    else h ∷ snap ∷ []

last_step-IsHistory :
    (snap h : Snapshot) → h.date ≤ snap.date → IsHistory snap.date (last_step snap h)
last_step-IsHistory snap h past = elim (Bool-cases (h.date == snap.date)) [
  | inl q ↦ rw q ((tt, tt), (omega arith, tt))
  | inr q ↦
      let earlier : h.date < snap.date = ground arith in
      elim (Bool-cases (same_signature h snap)) [
        | inl s ↦ rw (q, s) ((tt, tt), (past, tt))
        | inr s ↦ rw (q, s) ((earlier, (tt, tt)), (past, (omega arith, tt)))
      ]
]

last_step-EndsWith : (snap h : Snapshot) → EndsWith snap (last_step snap h)
last_step-EndsWith snap h = elim (Bool-cases (h.date == snap.date)) [
  | inl q ↦ rw q (same_refl snap)
  | inr q ↦ elim (Bool-cases (same_signature h snap)) [
    | inl s ↦ rw (q, s) s
    | inr s ↦ rw (q, s) (same_refl snap)
  ]
]

last_step-IsAfter :
    (d : ℕ) (snap h : Snapshot) → d < h.date → h.date ≤ snap.date → IsAfter d (last_step snap h)
last_step-IsAfter d snap h after past = elim (Bool-cases (h.date == snap.date)) [
  | inl q ↦ rw q (omega arith)
  | inr q ↦ elim (Bool-cases (same_signature h snap)) [
    | inl s ↦ rw (q, s) after
    | inr s ↦ rw (q, s) after
  ]
]

add_snapshot-IsAfter :
    (d : ℕ) (snap : Snapshot) (h : Snapshot) (hist : List Snapshot)
    → d < h.date
    → h.date ≤ snap.date
    → IsAfter d (add_snapshot snap (h ∷ hist))
unfolding add_snapshot
add_snapshot-IsAfter d snap h [] after past = last_step-IsAfter d snap h after past
add_snapshot-IsAfter d snap h (h' ∷ hist) after past = after

add_snapshot-IsHistory :
    (snap : Snapshot) (hist : List Snapshot)
    → IsHistory snap.date hist
    → IsHistory snap.date (add_snapshot snap hist)
unfolding add_snapshot
add_snapshot-IsHistory snap [] (a, past) = ((tt, tt), (omega arith, tt))
add_snapshot-IsHistory snap (h ∷ []) (a, past) = last_step-IsHistory snap h past.0
add_snapshot-IsHistory snap (h ∷ h' ∷ hist) (a, past) =
    let rest : IsHistory snap.date (add_snapshot snap (h' ∷ hist)) =
      add_snapshot-IsHistory snap (h' ∷ hist) (a.1, past.1) in
    ((add_snapshot-IsAfter h.date snap h' hist a.0 past.1.0, rest.0), (past.0, rest.1))

ends_below :
    (snap h : Snapshot) (hist : List Snapshot) → EndsWith snap hist → EndsWith snap (h ∷ hist)
ends_below snap h [] e = absurd e
ends_below snap h (h' ∷ hist) e = e

add_snapshot-EndsWith :
    (snap : Snapshot) (hist : List Snapshot) → EndsWith snap (add_snapshot snap hist)
unfolding add_snapshot
add_snapshot-EndsWith snap [] = same_refl snap
add_snapshot-EndsWith snap (h ∷ []) = last_step-EndsWith snap h
add_snapshot-EndsWith snap (h ∷ h' ∷ hist) =
    ends_below snap h (add_snapshot snap (h' ∷ hist)) (add_snapshot-EndsWith snap (h' ∷ hist))

drop-IsHistory :
    (today n : ℕ) (hist : List Snapshot) → IsHistory today hist → IsHistory today (drop n hist)
drop-IsHistory today zero hist h = h
drop-IsHistory today (suc n) [] h = h
drop-IsHistory today (suc n) (x ∷ hist) (a, past) = drop-IsHistory today n hist (a.1, past.1)

drop-EndsWith :
    (snap : Snapshot) (n : ℕ) (hist : List Snapshot)
    → n < length hist
    → EndsWith snap hist
    → EndsWith snap (drop n hist)
drop-EndsWith snap zero hist less e = e
drop-EndsWith snap (suc n) [] less e = e
drop-EndsWith snap (suc n) (x ∷ []) less e = absurd (omega arith)
drop-EndsWith snap (suc n) (x ∷ y ∷ hist) less e = drop-EndsWith snap n (y ∷ hist) (omega arith) e

EndsWith-length : (snap : Snapshot) (hist : List Snapshot) → EndsWith snap hist → 0 < length hist
EndsWith-length snap [] e = absurd e
EndsWith-length snap (x ∷ hist) e = omega arith

keep_last-IsRecorded :
    (today : ℕ) (snap : Snapshot) (hist : List Snapshot)
    → IsHistory today hist
    → EndsWith snap hist
    → IsHistory today (keep_last hist)
      × EndsWith snap (keep_last hist)
      × (length (keep_last hist) ≤ 120)
unfolding keep_last
keep_last-IsRecorded today snap hist h e = (
  drop-IsHistory today (length hist - history_limit) hist h,
  drop-EndsWith snap (length hist - history_limit) hist (omega (arith, EndsWith-length snap hist e))
      e,
  omega (arith, length-drop (length hist - history_limit) hist),
)

-- Where the player is ranked and the stored history ascends by date and has no future entry,
-- `record_rank` returns at most 120 entries, which ascend by date, none in the future, the last of
-- them with the tier, the division and the points of now; the store to save has them under the
-- player, and every other player's history as it was.
pub record_rank-IsRecorded :
    (today : ℕ) (puuid other : String) (rank : Rank) (store : RankStore)
    → str_eq rank.tier "UNRANKED" ≡ false
    → IsHistory today (get_or [] puuid store)
    → IsHistory today (record_rank today puuid rank store).1
      × EndsWith (snapshot today rank) (record_rank today puuid rank store).1
      × (length (record_rank today puuid rank store).1 ≤ 120)
      × (get_or [] other (record_rank today puuid rank store).0 ≡ (
          if str_eq puuid other
          then (record_rank today puuid rank store).1
          else get_or [] other store))
unfolding record_rank snapshot
record_rank-IsRecorded today puuid other rank store ranked h =
    let snap : Snapshot = snapshot today rank in
    let hist : List Snapshot = get_or [] puuid store in
    let kept : IsHistory today (keep_last (add_snapshot snap hist))
        × EndsWith snap (keep_last (add_snapshot snap hist))
        × (length (keep_last (add_snapshot snap hist)) ≤ 120) =
      keep_last-IsRecorded today snap (add_snapshot snap hist) (add_snapshot-IsHistory snap hist h)
        (add_snapshot-EndsWith snap hist) in
    rw ranked (
      kept.0,
      kept.1,
      kept.2,
      get_or-insert [] puuid other (keep_last (add_snapshot snap hist)) store,
    )
