-- ===== src/Engine/Clean/Jobs/Laws.antt =====
-- A job is finished exactly if it has an instance and all its instances have succeeded.
use mathlib.Core.List.{foldl-append}
use baetyl.Base.{
  String, Bool, true, false, Option, none, some, List, [], ◌∷◌, ◌++◌, ◌≡◌, ◌↔◌, ◌∙◌, refl, sym, ap,
  subst, foldl, any, all, any_iff, all_iff, arith, In, In-append, In-append_cases, inl, inr, ◌&&◌,
  ◌||◌, not, Bool-cases, ◌==◌, string_eq,
}
use baetyl.Base.Dict
use baetyl.Base.Dict.{Dict, lookup-insert, has-lookup, lookup-nil, NodupKeys, insert-NodupKeys}
use baetyl.Base.Range.{Range, any_order}
use baetyl.Spec.{AppStats, InstanceStats, Application, Status}
use baetyl.Engine.Collide.{Apps, Names}
use baetyl.Engine.Clean.Jobs.{
  is_job, is_succeeded, add_job, job_names, note_instance, note_stats, add_finished,
  get_finished_jobs,
}

-- The instances in the order of the loops.
instances : Range → List AppStats → List InstanceStats
instances range [] = []
instances range (stat ∷ stats) =
    range.order InstanceStats (Dict.values stat.instance_stats) ++ instances range stats

note_stats-instances :
    (range : Range) (jobs : Names) (stats : List AppStats) (status : Dict String Status)
    → foldl (note_stats range jobs) status stats
      ≡ foldl (note_instance jobs) status (instances range stats)
unfolding note_stats instances
note_stats-instances range jobs [] status = refl
note_stats-instances range jobs (stat ∷ stats) status =
    note_stats-instances range jobs stats _ ∙ sym (rw foldl-append)

abbrev outcome : Option Status → Bool
outcome none = false
outcome (some s) = is_succeeded s

-- What the loop over the instances leaves for one job, from what it had.
abbrev summary : Option Status → Bool → Bool → Bool
summary none some_there all_done = some_there && all_done
summary (some s) some_there all_done = is_succeeded s && all_done

abbrev of_app : String → InstanceStats → Bool
of_app n ins = ins.app_name == n

abbrev done_or_other : String → InstanceStats → Bool
done_or_other n ins = not (ins.app_name == n) || is_succeeded ins.status

note_instances :
    (n : String) (jobs : Names) (l : List InstanceStats) (status : Dict String Status)
    → Dict.has n jobs ≡ true
    → outcome (Dict.lookup n (foldl (note_instance jobs) status l))
      ≡ summary (Dict.lookup n status) (any (of_app n) l) (all (done_or_other n) l)
unfolding note_instance
note_instances n jobs [] status h = ground arith
note_instances n jobs (ins ∷ l) status h =
    note_instances n jobs l (note_instance jobs status ins) h
    ∙ ground (arith, lookup-insert n ins.app_name ins.status status)

note_instances_absent :
    (n : String) (jobs : Names) (l : List InstanceStats) (status : Dict String Status)
    → Dict.has n jobs ≡ false
    → Dict.lookup n (foldl (note_instance jobs) status l) ≡ Dict.lookup n status
unfolding note_instance
note_instances_absent n jobs [] status h = refl
note_instances_absent n jobs (ins ∷ l) status h =
    note_instances_absent n jobs l (note_instance jobs status ins) h
    ∙ ground (arith, lookup-insert n ins.app_name ins.status status)

note_instances-NodupKeys :
    (jobs : Names) (l : List InstanceStats) (status : Dict String Status)
    → NodupKeys status
    → NodupKeys (foldl (note_instance jobs) status l)
unfolding note_instance
note_instances-NodupKeys jobs [] status u = u
note_instances-NodupKeys jobs (ins ∷ l) status u =
    note_instances-NodupKeys jobs l _
      (ground (arith, insert-NodupKeys ins.app_name ins.status status u))

abbrev finishes : String → String × Status → Bool
finishes n (name, status) = n == name && is_succeeded status

has-add_finished :
    (n : String) (l : List (String × Status)) (res : Names)
    → Dict.has n (foldl add_finished res l) ≡ (Dict.has n res || any (finishes n) l)
unfolding add_finished
has-add_finished n [] res = ground arith
has-add_finished n ((name, status) ∷ l) res =
    has-add_finished n l _
    ∙ ground (
      arith,
      has-lookup n (Dict.insert name tt res),
      has-lookup n res,
      lookup-insert n name tt res,
    )

any-finishes :
    (n : String) (d : Dict String Status)
    → NodupKeys d
    → any (finishes n) d ≡ outcome (Dict.lookup n d)
unfolding Dict.lookup
any-finishes n [] u = refl
any-finishes n ((name, status) ∷ d) (fresh, u) = ground (arith, any-finishes n d u)

-- The jobs among the applications.
pub has-job_names :
    (range : Range) (n : String) (apps : Apps)
    → Dict.has n (job_names range apps)
      ≡ any (λ app. is_job app && n == app.name) (Dict.values apps)
unfolding job_names Dict.has
has-job_names range n apps =
    added (range.order Application (Dict.values apps)) []
    ∙ ground (arith, any_order range (λ app. is_job app && n == app.name) (Dict.values apps))
  where
    added :
        (l : List Application) (jobs : Names)
        → Dict.has n (foldl add_job jobs l)
          ≡ (any (λ app. is_job app && n == app.name) l || Dict.has n jobs)
    added [] jobs = refl
    added (app ∷ l) jobs =
        added l (add_job jobs app)
        ∙ ground (
          arith,
          has-lookup n (Dict.insert app.name tt jobs),
          has-lookup n jobs,
          lookup-insert n app.name tt jobs,
        )

has-get_finished_jobs :
    (range : Range) (n : String) (apps : Apps) (stats : List AppStats)
    → Dict.has n (get_finished_jobs range apps stats) ≡ (
        Dict.has n (job_names range apps)
        && (any (of_app n) (instances range stats)
            && all (done_or_other n) (instances range stats)))
unfolding get_finished_jobs Dict.has
has-get_finished_jobs range n apps stats =
    has-add_finished n (range.order (String × Status) status) []
    ∙ any_order range (finishes n) status
    ∙ any-finishes n status (subst NodupKeys (sym flat) (note_instances-NodupKeys jobs l [] tt))
    ∙ ap (λ d. outcome (Dict.lookup n d)) flat
    ∙ elim (Bool-cases (Dict.has n jobs)) [
      | inl e ↦ rw e (note_instances n jobs l [] e ∙ ground (arith, lookup-nil {V = Status} n))
      | inr e ↦
          rw e (ground (arith, note_instances_absent n jobs l [] e, lookup-nil {V = Status} n))
    ]
  where
    jobs : Names
    jobs = job_names range apps

    l : List InstanceStats
    l = instances range stats

    status : Dict String Status
    status = foldl (note_stats range jobs) [] stats

    flat : status ≡ foldl (note_instance jobs) [] l
    flat = note_stats-instances range jobs stats []

In-instances :
    (range : Range) (ins : InstanceStats) (stats : List AppStats)
    → In ins (instances range stats)
      ↔ ((stat : AppStats) × In stat stats × In ins (Dict.values stat.instance_stats))
unfolding instances
In-instances range ins [] = (λ h. absurd h, λ h. h.1)
In-instances range ins (s ∷ stats) = (
  λ h.
      elim (In-append_cases ins (range.order InstanceStats (Dict.values s.instance_stats))
        (instances range stats) h) [
          | inl m ↦ (s, inl refl, (range.in_order _ _ _).0 m)
          | inr m ↦ let (stat, k, q) = (In-instances range ins stats).0 m in (stat, inr k, q)
        ],
  λ (stat, k, q). In-append ins _ (instances range stats) (elim k [
    | inl e ↦ inl (
        (range.in_order _ _ _).1
          (subst (λ (t : AppStats). In ins (Dict.values t.instance_stats)) e q))
    | inr m ↦ inr ((In-instances range ins stats).1 (stat, m, q))
  ]),
)

-- An instance that the statistics of the node list for the application of a name.
pub record Reported (stats : List AppStats) (n : String) (ins : InstanceStats) : Type 0 where
  pub stat : AppStats
  pub listed : In stat stats
  pub member : In ins (Dict.values stat.instance_stats)
  pub of_name : ins.app_name ≡ n

pub record IsFinished (apps : Apps) (stats : List AppStats) (n : String) : Type 0 where
  pub app : Application
  pub known : In app (Dict.values apps)
  pub is_a_job : is_job app ≡ true
  pub app_name : app.name ≡ n
  pub instance_of : InstanceStats
  pub has_instance : Reported stats n instance_of
  pub all_succeeded : (ins : InstanceStats) → Reported stats n ins → is_succeeded ins.status ≡ true

abbrev passes : Range → String → Apps → List AppStats → Bool
passes range n apps stats =
    Dict.has n (job_names range apps)
    && (any (of_app n) (instances range stats) && all (done_or_other n) (instances range stats))

finished :
    (range : Range) (n : String) (apps : Apps) (stats : List AppStats)
    → passes range n apps stats ≡ true
    → IsFinished apps stats n
finished range n apps stats h =
    let (app, known, q) =
      (any_iff (λ app. is_job app && n == app.name) (Dict.values apps)).0
        (sym (has-job_names range n apps) ∙ ground arith) in
    let (ins, m, e) = (any_iff (of_app n) (instances range stats)).0 (ground arith) in
    let (stat, k, v) = (In-instances range ins stats).0 m in
    let done = (all_iff (done_or_other n) (instances range stats)).0 (ground arith) in
    record {
      app = app;
      known = known;
      is_a_job = ground arith;
      app_name = ground arith;
      instance_of = ins;
      has_instance = record { stat = stat; listed = k; member = v; of_name = ground arith };
      all_succeeded = λ other r.
          ground
            (arith, done other ((In-instances range other stats).1 (r.stat, r.listed, r.member)));
    }

finishing :
    (range : Range) (n : String) (apps : Apps) (stats : List AppStats)
    → IsFinished apps stats n
    → passes range n apps stats ≡ true
finishing range n apps stats f =
    let there =
      (any_iff (λ app. is_job app && n == app.name) (Dict.values apps)).1
        (f.app, f.known, ground arith) in
    let some_there = (any_iff (of_app n) (instances range stats)).1 (
      f.instance_of,
      (In-instances range f.instance_of stats).1
          (f.has_instance.stat, f.has_instance.listed, f.has_instance.member),
      ground arith,
    ) in
    let all_done = (all_iff (done_or_other n) (instances range stats)).1 λ ins m.
      let (stat, k, v) = (In-instances range ins stats).0 m in
      elim (Bool-cases (ins.app_name == n)) [
        | inl e ↦ ground (
          arith,
          f.all_succeeded ins
              (record { stat = stat; listed = k; member = v; of_name = ground arith }),
        )
        | inr e ↦ ground arith
      ] in
    ground (arith, has-job_names range n apps, there, some_there, all_done)

-- Whatever the order of ranging, a name is among the finished jobs exactly if it is that of a
-- job among the applications that has an instance, and all its instances have succeeded.
pub get_finished_jobs_exact :
    (range : Range) (n : String) (apps : Apps) (stats : List AppStats)
    → (Dict.has n (get_finished_jobs range apps stats) ≡ true) ↔ IsFinished apps stats n
get_finished_jobs_exact range n apps stats =
    let eq = has-get_finished_jobs range n apps stats in
    (λ h. finished range n apps stats (sym eq ∙ h), λ f. eq ∙ finishing range n apps stats f)
