-- ===== src/Engine/Reconcile/Laws.antt =====
-- What one round of the engine carries out of the plan.
use mathlib.Core.List.{append_assoc, append-nil}
use baetyl.Base.{
  String, Bool, true, false, Option, none, some, List, [], ◌∷◌, ◌++◌, map, ◌≡◌, ◌⊎◌, inl, inr, refl,
  sym, ap, ◌∙◌, subst, arith, In, Option-cases,
}
use baetyl.Base.Dict
use baetyl.Base.Dict.{Dict}
use baetyl.Base.Range.{count}
use baetyl.Node.Defs
use baetyl.Node.Defs.{Result, ok, err, Doc}
use baetyl.Node.Laws.{Result-cases}
use baetyl.Spec.{AppInfo, Application}
use baetyl.Sync.Desire.{sync_apps}
use baetyl.Engine.Apply.{apply_apps}
use baetyl.Engine.Apply.Blame.{Delivered, Blamed, apply_apps-Told}
use baetyl.Engine.Collide.{Stats, Checked}
use baetyl.Engine.Collide.MultiApp.{check_multi_app_port}
use baetyl.Engine.Plan.{Infos, get_delete_and_update}
use baetyl.Engine.Reconcile.{
  Lib, State, Outcome, and_then, or_nil, collect, report, report_app_stats_if_need, with_stats,
  filtered, delete_each, delete_apps, apply_update, carry_out, index_stats, namespace_of, with_apps,
  reconcile, report_and_apply,
}

no_error : {e : String} → some e ≡ none → ⊥
no_error h = cc

module _ (lib : Lib) where
  open lib use {node}

  ran_both :
      (o : Outcome lib) (next : State lib → Outcome lib) (s' : State lib)
      → and_then lib o next ≡ (none, s')
      → (o.0 ≡ none) × (next o.1 ≡ (none, s'))
  ran_both (some e, s) next s' h = ground arith
  ran_both (none, s) next s' h = (refl, h)

  -- A call that leaves the platform alone.
  abbrev Quiet : State lib → State lib → Type 0
  Quiet s s' = (s'.apply ≡ s.apply) × (s'.deleted ≡ s.deleted)

  stats-Quiet :
      (is_sys : Bool) (r : Doc (node.Value)) (stats : Stats) (s : State lib)
      → Quiet s (report_app_stats_if_need lib is_sys r stats s).1
  unfolding report_app_stats_if_need report
  stats-Quiet is_sys r [] s = (refl, refl)
  stats-Quiet is_sys r (x ∷ stats) s =
      elim (Result-cases (Defs.report node (with_stats lib is_sys r (x ∷ stats)) false s.cell).0) [
        | inl (e, p) ↦ (ground arith, ground arith)
        | inr (d, p) ↦ (ground arith, ground arith)
      ]

  delete_each-exact :
      (ns : String) (l : List AppInfo) (s s' : State lib)
      → delete_each lib ns l s ≡ (none, s')
      → (s'.apply ≡ s.apply) × (s'.deleted ≡ s.deleted ++ map (λ i. (ns, i)) l)
  unfolding delete_each
  delete_each-exact ns [] s s' h = (
    ap (λ (o : Outcome lib). o.1.apply) (sym h),
    ap (λ (o : Outcome lib). o.1.deleted) (sym h) ∙ sym (append-nil s.deleted),
  )
  delete_each-exact ns (n ∷ l) s s' h = elim (Option-cases (lib.delete_error ns n)) [
    | inr (e, p) ↦ ground arith
    | inl p ↦
        let (a, d) =
          delete_each-exact ns l (record s { deleted = s.deleted ++ ((ns, n) ∷ []) }) s'
            (ground arith) in
        (a, d ∙ append_assoc s.deleted ((ns, n) ∷ []) (map (λ i. (ns, i)) l))
  ]

  abbrev pub all_of : Dict String AppInfo → List AppInfo
  all_of d = lib.apply.range.order AppInfo (Dict.values d)

  delete_apps-exact :
      (ns : String) (del : Infos) (s s' : State lib)
      → delete_apps lib true ns del s ≡ (none, s')
      → (s'.apply ≡ s.apply) × (s'.deleted ≡ s.deleted ++ map (λ i. (ns, i)) (all_of del))
  unfolding delete_apps
  delete_apps-exact ns del s s' h = delete_each-exact ns (all_of del) s s' h

  apply_update-exact :
      (is_sys : Bool) (ns : String) (r : Doc (node.Value)) (c : Checked) (s : State lib)
      → let o = apply_update lib is_sys ns r c s in
        (o.1.apply ≡ (apply_apps lib.apply ns c.update c.stats s.apply).1)
        × (o.1.deleted ≡ s.deleted)
  unfolding apply_update
  apply_update-exact is_sys ns r c s =
      let (stats, applied) = apply_apps lib.apply ns c.update c.stats s.apply in
      stats-Quiet is_sys r stats (record s { apply = applied })

  carry_out-exact :
      (is_sys : Bool) (ns : String) (r : Doc (node.Value)) (del : Infos) (c : Checked)
      (s s' : State lib)
      → carry_out lib is_sys true ns r del c s ≡ (none, s')
      → (s'.apply ≡ (apply_apps lib.apply ns c.update c.stats s.apply).1)
        × (s'.deleted ≡ s.deleted ++ map (λ i. (ns, i)) (all_of del))
  unfolding carry_out
  carry_out-exact is_sys ns r del c s s' h =
      let told = report_app_stats_if_need lib is_sys r c.stats s in
      let next : State lib → Outcome lib =
        apply_update lib is_sys ns (with_stats lib is_sys r c.stats) c in
      let (_, h1) = ran_both told (λ s1. and_then lib (delete_apps lib true ns del s1) next) s' h in
      let (gone, h2) = ran_both (delete_apps lib true ns del told.1) next s' h1 in
      let (a1, d1) = stats-Quiet is_sys r c.stats s in
      let s2 = (delete_apps lib true ns del told.1).1 in
      let (a2, d2) =
        delete_apps-exact ns del told.1 s2 (ap {A = Option String} (λ e. (e, s2)) gone) in
      let (a3, d3) = apply_update-exact is_sys ns (with_stats lib is_sys r c.stats) c s2 in
      (
        sym (ap (λ (o : Outcome lib). o.1.apply) h2)
            ∙ a3
            ∙ ap (λ a. (apply_apps lib.apply ns c.update c.stats a).1) (a2 ∙ a1),
        sym (ap (λ (o : Outcome lib). o.1.deleted) h2)
            ∙ d3
            ∙ d2
            ∙ ap (λ l. l ++ map (λ i. (ns, i)) (all_of del)) d1,
      )

  -- What a round does for a desire: the plan against the report, less the collisions of ports, is carried out.
  pub record Reconciled (is_sys : Bool) (reported desired : List AppInfo) (stats : Stats)
      (s s' : State lib) : Type 0 where
    pub apps : Dict String Application
    pub synced : sync_apps lib.apply.range lib.apply.desire desired ≡ some apps
    pub dropped : List AppInfo
    pub deleted : s'.deleted ≡ s.deleted ++ map (λ i. (namespace_of lib is_sys, i)) dropped
    pub each_once :
        (p : AppInfo → Bool)
        → count p dropped ≡ count p (Dict.values (get_delete_and_update desired reported).0)
    pub applied :
        let c =
          check_multi_app_port lib.apply.range desired apps stats
            (get_delete_and_update desired reported).1 in
        (info : AppInfo)
        → In info (Dict.values c.update)
        → Delivered lib.apply (namespace_of lib is_sys) info s'.apply
          ⊎ Blamed lib.apply
              (namespace_of lib is_sys)
              info
              (apply_apps lib.apply (namespace_of lib is_sys) c.update c.stats s.apply).0

  reconcile-Reconciled :
      (is_sys : Bool) (r : Doc (node.Value)) (desired : List AppInfo) (s s' : State lib)
      → reconcile lib is_sys true r desired s ≡ (none, s')
      → Reconciled is_sys
          (filtered lib (or_nil lib (lib.app_infos is_sys r)))
          (filtered lib desired)
          (index_stats lib (lib.app_stats is_sys r))
          s
          s'
  unfolding reconcile with_apps
  reconcile-Reconciled is_sys r desired s s' h =
      let dapps = filtered lib desired in
      let rapps = filtered lib (or_nil lib (lib.app_infos is_sys r)) in
      let stats = index_stats lib (lib.app_stats is_sys r) in
      let plan = get_delete_and_update dapps rapps in
      let goes : Option (Dict String Application) → Outcome lib =
        λ x. with_apps lib is_sys true r dapps plan x s in
      elim (Option-cases (sync_apps lib.apply.range lib.apply.desire dapps)) [
        | inl p ↦
            absurd
              (no_error (ap (λ (o : Outcome lib). o.0) (sym (ap {B = Outcome lib} goes p) ∙ h)))
        | inr (apps, p) ↦
            let c = check_multi_app_port lib.apply.range dapps apps stats plan.1 in
            let final =
              (apply_apps lib.apply (namespace_of lib is_sys) c.update c.stats s.apply).0 in
            let (a, d) =
              carry_out-exact is_sys (namespace_of lib is_sys) r plan.0 c s s'
                (sym (ap {B = Outcome lib} goes p) ∙ h) in
            record {
              apps = apps;
              synced = p;
              dropped = all_of plan.0;
              deleted = d;
              each_once = λ p. lib.apply.range.each_once AppInfo p (Dict.values plan.0);
              applied = λ info m.
                  subst
                    (λ x.
                      Delivered lib.apply (namespace_of lib is_sys) info x
                      ⊎ Blamed lib.apply (namespace_of lib is_sys) info final)
                    (sym a)
                    (apply_apps-Told lib.apply (namespace_of lib is_sys) c.update c.stats s.apply
                      info m);
            }
      ]

  pub report_and_apply-Reconciled :
      (is_sys : Bool) (desire delta : Doc (node.Value)) (desired : List AppInfo) (s s' : State lib)
      → let r = collect lib (namespace_of lib is_sys) is_sys (some desire) in
        (Defs.report node r false s.cell).0 ≡ ok delta
        → lib.app_infos is_sys delta ≡ some desired
        → report_and_apply lib is_sys true (some desire) s ≡ (none, s')
        → Reconciled is_sys
            (filtered lib (or_nil lib (lib.app_infos is_sys r)))
            (filtered lib desired)
            (index_stats lib (lib.app_stats is_sys r))
            s
            s'
  unfolding report_and_apply report
  report_and_apply-Reconciled is_sys desire delta desired s s' told wanted h =
      let r = collect lib (namespace_of lib is_sys) is_sys (some desire) in
      let s1 : State lib = record s { cell = (Defs.report node r false s.cell).1 } in
      let ran : reconcile lib is_sys true r desired s1 ≡ (none, s') = ground arith in
      let x = reconcile-Reconciled is_sys r desired s1 s' ran in
      record {
        apps = x.apps;
        synced = x.synced;
        dropped = x.dropped;
        deleted = x.deleted;
        each_once = x.each_once;
        applied = x.applied;
      }
