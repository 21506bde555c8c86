-- ===== src/Grader/Merge.antt =====
-- The merge of test results: what `add` and the loops over it leave under each id.
use deepswe_eval_lab.Base.{
  String, ◌≡◌, refl, Bool, true, Option, none, some, List, [], ◌∷◌, ◌++◌, arith, ◌==◌, eq_iff, ltb,
  if◌then◌else◌, map, inl, inr, Option-cases,
}
use deepswe_eval_lab.Base.Dict
use deepswe_eval_lab.Base.Dict.{get-insert, nodup-insert}
use deepswe_eval_lab.Base.Json.{Json}
use deepswe_eval_lab.Grader.Status.{Status, rank, Entry, Results, Case, add}
use deepswe_eval_lab.Grader.Reports.{TestCase, ctrf_case, junit_case, ctrf_loop, junit_loop}
use deepswe_eval_lab.Grader.Score.{merge_report, merge_reports}

-- The worse of two statuses.
abbrev pub worse : Status → Status → Status
worse a b = if ltb (rank a) (rank b) then b else a

abbrev pub join : Option Status → Status → Option Status
join none b = some b
join (some a) b = some (worse a b)

abbrev pub join_option : Option Status → Option Status → Option Status
join_option a none = a
join_option a (some b) = join a b

abbrev pub status_in : Option Entry → Option Status
status_in none = none
status_in (some e) = some e.status

-- The status stored under an id.
abbrev pub status_at : Results → String → Option Status
status_at res k = status_in (Dict.get k res)

-- The worst status among the cases of an id.
unfoldable pub worst : String → List Case → Option Status
worst k [] = none
worst k (c ∷ cs) = if c.node_id == k then join_option (some c.status) (worst k cs) else worst k cs

pub join_option_assoc :
    (a b c : Option Status) → join_option (join_option a b) c ≡ join_option a (join_option b c)
join_option_assoc none none none = refl
join_option_assoc none none (some c) = refl
join_option_assoc _ _ none = ground arith
join_option_assoc _ _ (some c) = ground arith

-- One `add` changes the status of its own id only, to the worse of the old and the new.
pub status_at-add :
    (res : Results) (j k : String) (st : Status) (msg : String)
    → status_at (add res k st msg) j
      ≡ (if k == j then join (status_at res j) st else status_at res j)
unfolding add
status_at-add res j k st msg = ground (
  arith,
  eq_iff k j,
  get-insert j k (record { status = st; message = "" }) res,
  get-insert j k (record { status = st; message = msg }) res,
)

pub nodup-add :
    (res : Results) (k : String) (st : Status) (msg : String)
    → Dict.nodup res ≡ true
    → Dict.nodup (add res k st msg) ≡ true
unfolding add
nodup-add res k st msg h = ground (
  arith,
  nodup-insert k (record { status = st; message = "" }) res h,
  nodup-insert k (record { status = st; message = msg }) res h,
)

-- The cases that a parser's loop adds, in order.
unfoldable pub keep_some : List (Option Case) → List Case
keep_some [] = []
keep_some (none ∷ cs) = keep_some cs
keep_some (some c ∷ cs) = c ∷ keep_some cs

unfoldable pub add_cases : Results → List Case → Results
add_cases res [] = res
add_cases res (c ∷ cs) = add_cases (add res c.node_id c.status c.message) cs

pub status_at-add_cases :
    (res : Results) (j : String) (cs : List Case)
    → status_at (add_cases res cs) j ≡ join_option (status_at res j) (worst j cs)
unfolding add_cases worst
status_at-add_cases res j [] = refl
status_at-add_cases res j (c ∷ cs) =
    let res' = add res c.node_id c.status c.message in
    ground (
      arith,
      status_at-add_cases res' j cs,
      status_at-add res j c.node_id c.status c.message,
      join_option_assoc (status_at res j) (some c.status) (worst j cs),
    )

pub nodup-add_cases :
    (res : Results) (cs : List Case) → Dict.nodup res ≡ true → Dict.nodup (add_cases res cs) ≡ true
unfolding add_cases
nodup-add_cases res [] h = h
nodup-add_cases res (c ∷ cs) h =
    nodup-add_cases (add res c.node_id c.status c.message) cs
      (nodup-add res c.node_id c.status c.message h)

-- Merging a report into the results joins the statuses under each id.
pub status_at-merge_report :
    (seen d : Results) (j : String)
    → Dict.nodup d ≡ true
    → status_at (merge_report seen d) j ≡ join_option (status_at seen j) (status_at d j)
unfolding merge_report Dict.get Dict.nodup
status_at-merge_report seen [] j h = refl
status_at-merge_report seen ((k, e) ∷ d) j h = ground (
  arith,
  eq_iff k j,
  status_at-merge_report (add seen k e.status e.message) d j,
  status_at-add seen j k e.status e.message,
  Dict.get-eq-none k d,
)

-- The cases of all reports, in order.
unfoldable pub cases_of : (String → List Case) → List String → List Case
cases_of cases [] = []
cases_of cases (rep ∷ reps) = cases rep ++ cases_of cases reps

pub worst-append :
    (j : String) (cs ds : List Case) → worst j (cs ++ ds) ≡ join_option (worst j cs) (worst j ds)
unfolding worst
worst-append j [] ds = ground arith
worst-append j (c ∷ cs) ds =
    ground
      (arith, worst-append j cs ds, join_option_assoc (some c.status) (worst j cs) (worst j ds))

-- A report of its own: the status of an id is the worst among its cases.
pub status_at-parsed : (cs : List Case) (j : String) → status_at (add_cases [] cs) j ≡ worst j cs
unfolding Dict.get
status_at-parsed cs j = ground (arith, status_at-add_cases [] j cs)

pub status_at-merge_cases :
    (seen : Results) (cs : List Case) (j : String)
    → status_at (merge_report seen (add_cases [] cs)) j
      ≡ join_option (status_at seen j) (worst j cs)
unfolding Dict.nodup
status_at-merge_cases seen cs j =
    rw (← status_at-parsed cs j)
      (status_at-merge_report seen (add_cases [] cs) j (nodup-add_cases [] cs refl))

pub status_at-merge_reports :
    (parse : String → Results) (cases : String → List Case)
    → ((path : String) → parse path ≡ add_cases [] (cases path))
    → (seen : Results) (reps : List String) (j : String)
    → status_at (merge_reports parse seen reps) j
      ≡ join_option (status_at seen j) (worst j (cases_of cases reps))
unfolding merge_reports cases_of worst
status_at-merge_reports parse cases e seen [] j = refl
status_at-merge_reports parse cases e seen (rep ∷ reps) j = cc (
  status_at-merge_reports parse cases e (merge_report seen (parse rep)) reps j,
  e rep,
  status_at-merge_cases seen (cases rep) j,
  worst-append j (cases rep) (cases_of cases reps),
  join_option_assoc (status_at seen j) (worst j (cases rep)) (worst j (cases_of cases reps)),
)

pub ctrf_loop-eq-add_cases :
    (show : Json → String) (by_suite : Bool) (res : Results) (tests : List Json)
    → ctrf_loop show by_suite res tests
      ≡ add_cases res (keep_some (map (ctrf_case show by_suite) tests))
unfolding ctrf_loop add_cases keep_some
ctrf_loop-eq-add_cases show by_suite res [] = refl
ctrf_loop-eq-add_cases show by_suite res (tc ∷ tests) =
    elim (Option-cases (ctrf_case show by_suite tc)) [
      | inl e ↦ rw e (ctrf_loop-eq-add_cases show by_suite res tests)
      | inr (c, e) ↦
          rw e (ctrf_loop-eq-add_cases show by_suite (add res c.node_id c.status c.message) tests)
    ]

pub junit_loop-eq-add_cases :
    (res : Results) (tests : List TestCase)
    → junit_loop res tests ≡ add_cases res (keep_some (map junit_case tests))
unfolding junit_loop add_cases keep_some
junit_loop-eq-add_cases res [] = refl
junit_loop-eq-add_cases res (tc ∷ tests) = elim (Option-cases (junit_case tc)) [
  | inl e ↦ rw e (junit_loop-eq-add_cases res tests)
  | inr (c, e) ↦ rw e (junit_loop-eq-add_cases (add res c.node_id c.status c.message) tests)
]
