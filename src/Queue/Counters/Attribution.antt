-- ===== src/Queue/Counters/Attribution.antt =====
-- What the outcome tables of internal/queue/queue.go say of a lane.
use mxlrcgo_svc.Common.{
  ℕ, suc, ◌+◌, ◌≡◌, refl, ap, ◌∙◌, String, Bool, true, false, not, ◌&&◌, Option, some, ◌⊎◌, List,
  [], ◌∷◌, ◌==◌, ==_iff, str_eq, eq_iff, any, count_if, if◌then◌else◌, arith, Bool-cases, inl, inr,
}
use mxlrcgo_svc.Common.Assoc.{put, lookup-put}
use mxlrcgo_svc.Models.{LaneAttempt}
use mxlrcgo_svc.Orchestrator.Dispatch.{lane_attempts_for}
use mxlrcgo_svc.Queue.Counters.{
  Counts, counts_of, record_provider_hit, record_provider_miss, AttemptRow, upsert_attempt,
  record_lane_attempts, attempt_of,
}

attempt_of-upsert_attempt :
    (i j : ℕ) (lane other : String) (hit : Bool) (at : ℕ) (rows : List AttemptRow)
    → attempt_of j other (upsert_attempt i lane hit at rows)
      ≡ (if (i == j) && str_eq lane other then some (hit, at) else attempt_of j other rows)
unfolding attempt_of upsert_attempt
attempt_of-upsert_attempt i j lane other hit at [] = refl
attempt_of-upsert_attempt i j lane other hit at (r ∷ rows) = ground (
  arith,
  eq_iff lane other,
  eq_iff r.lane lane,
  eq_iff r.lane other,
  attempt_of-upsert_attempt i j lane other hit at rows,
)

-- What a batch says of a lane: its last entry for the lane, or else what was known before.
abbrev pub latest : ℕ → String → List LaneAttempt → Option (Bool × ℕ) → Option (Bool × ℕ)
latest at lane [] known = known
latest at lane (a ∷ attempts) known =
    latest at lane attempts (if str_eq a.lane lane then some (a.hit, at) else known)

-- A batch sets the lanes that it names on its own queue row, each to the last entry for the lane, and
-- leaves every other lane and every other queue row alone.
pub record_lane_attempts-latest :
    (at i j : ℕ) (lane : String) (attempts : List LaneAttempt) (rows : List AttemptRow)
    → str_eq lane "" ≡ false
    → attempt_of j lane (record_lane_attempts at i attempts rows) ≡ (
        if i == j then latest at lane attempts (attempt_of j lane rows) else attempt_of j lane rows)
unfolding record_lane_attempts
record_lane_attempts-latest at i j lane [] rows h = ground arith
record_lane_attempts-latest at i j lane (a ∷ attempts) rows h =
    elim (Bool-cases (str_eq a.lane "")) [
      | inl blank ↦
          let other : str_eq a.lane lane ≡ false =
            ground (arith, eq_iff a.lane "", eq_iff a.lane lane, eq_iff lane "") in
          rw blank (rw other (record_lane_attempts-latest at i j lane attempts rows h))
      | inr named ↦ rw named (
          record_lane_attempts-latest at i j lane attempts (upsert_attempt i a.lane a.hit at rows) h
          ∙ elim (Bool-cases (i == j)) [
            | inl here ↦ rw here (
                ap (latest at lane attempts)
                  (attempt_of-upsert_attempt i j a.lane lane a.hit at rows ∙ (rw here)))
            | inr there ↦
                rw there (attempt_of-upsert_attempt i j a.lane lane a.hit at rows ∙ (rw there))
          ])
    ]

latest-attributed :
    (at : ℕ) (lane winner : String) (names : List String) (known : Option (Bool × ℕ))
    → (any (λ name. str_eq name lane) names ≡ true) ⊎ (known ≡ some (str_eq lane winner, at))
    → latest at lane (lane_attempts_for names winner) known ≡ some (str_eq lane winner, at)
unfolding lane_attempts_for
latest-attributed at lane winner [] known (inl h) = absurd (cc)
latest-attributed at lane winner [] known (inr e) = e
latest-attributed at lane winner (name ∷ names) known h = elim (Bool-cases (str_eq name lane)) [
  | inl here ↦
      let hit : str_eq name winner ≡ str_eq lane winner =
        ap (λ n. str_eq n winner) ((eq_iff name lane).0 here) in
      rw (here, latest)
        (latest-attributed at lane winner names _ (inr (ap (λ b. some (b, at)) hit)))
  | inr there ↦
      rw (there, latest)
        (latest-attributed at lane winner names known
          (elim h [ inl found ↦ inl (ground arith) | inr e ↦ inr e ]))
]

-- What the dispatch attributes is what the table says. Once the attribution of a track over the lanes
-- `names` with the winner `winner` is recorded for a queue row, the table has for each named lane that it hit
-- if it is the winner and missed if not, at the time of the recording, whatever it said before.
pub record_lane_attempts-winner :
    (at i : ℕ) (lane winner : String) (names : List String) (rows : List AttemptRow)
    → str_eq lane "" ≡ false
    → any (λ name. str_eq name lane) names ≡ true
    → attempt_of i lane (record_lane_attempts at i (lane_attempts_for names winner) rows)
      ≡ some (str_eq lane winner, at)
record_lane_attempts-winner at i lane winner names rows h a =
    record_lane_attempts-latest at i i lane (lane_attempts_for names winner) rows h
    ∙ (rw ((==_iff i i).1 refl) (latest-attributed at lane winner names _ (inl a)))

-- The outcomes that are counted, by lane.
unfoldable pub record_outcomes :
    List (Bool × String) → List (String × Counts) → List (String × Counts)
record_outcomes [] t = t
record_outcomes ((true, lane) ∷ os) t = record_outcomes os (record_provider_hit lane t)
record_outcomes ((false, lane) ∷ os) t = record_outcomes os (record_provider_miss lane t)

counts_of-put :
    (lane other : String) (c : Counts) (t : List (String × Counts))
    → counts_of other (put lane c t) ≡ (if str_eq lane other then c else counts_of other t)
counts_of-put lane other c t = elim (Bool-cases (str_eq lane other)) [
  | inl same ↦ rw (lookup-put lane other c t) (rw same)
  | inr apart ↦ rw (lookup-put lane other c t) (rw apart)
]

-- A recorded outcome moves the counts of its own lane alone; `bump` is what it does to them.
put-counts :
    (bump : Counts → Counts) (lane other : String) (t : List (String × Counts))
    → str_eq other "" ≡ false
    → counts_of other (if str_eq lane "" then t else put lane (bump (counts_of lane t)) t)
      ≡ (if str_eq lane other then bump (counts_of other t) else counts_of other t)
put-counts bump lane other t h = elim (Bool-cases (str_eq lane other)) [
  | inl same ↦
      let named : str_eq lane "" ≡ false = ap (λ l. str_eq l "") ((eq_iff lane other).0 same) ∙ h in
      rw named (
        counts_of-put lane other (bump (counts_of lane t)) t
        ∙ (rw same (ap (λ l. bump (counts_of l t)) ((eq_iff lane other).0 same))))
  | inr apart ↦ elim (Bool-cases (str_eq lane "")) [
    | inl blank ↦ rw blank (rw apart)
    | inr named ↦ rw named (counts_of-put lane other (bump (counts_of lane t)) t ∙ (rw apart))
  ]
]

-- The counters count: over any sequence of outcomes, a lane's hits and misses grow by the number of
-- its hits and misses in it, whatever the other lanes do.
pub record_outcomes-counts :
    (lane : String) (os : List (Bool × String)) (t : List (String × Counts))
    → str_eq lane "" ≡ false
    → ((counts_of lane (record_outcomes os t)).hits
        ≡ (counts_of lane t).hits + count_if (λ o. o.0 && str_eq o.1 lane) os)
      × ((counts_of lane (record_outcomes os t)).misses
          ≡ (counts_of lane t).misses + count_if (λ o. not o.0 && str_eq o.1 lane) os)
unfolding record_outcomes record_provider_hit record_provider_miss
record_outcomes-counts lane [] t h = (omega arith, omega arith)
record_outcomes-counts lane ((true, other) ∷ os) t h =
    let ih = record_outcomes-counts lane os (record_provider_hit other t) h in
    let now = put-counts (λ c. record c { hits = suc c.hits }) other lane t h in
    (ground (arith, ih.0, ap (λ c. c.hits) now), ground (arith, ih.1, ap (λ c. c.misses) now))
record_outcomes-counts lane ((false, other) ∷ os) t h =
    let ih = record_outcomes-counts lane os (record_provider_miss other t) h in
    let now = put-counts (λ c. record c { misses = suc c.misses }) other lane t h in
    (ground (arith, ih.0, ap (λ c. c.hits) now), ground (arith, ih.1, ap (λ c. c.misses) now))
