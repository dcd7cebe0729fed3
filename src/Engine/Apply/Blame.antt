-- ===== src/Engine/Apply/Blame.antt =====
-- After the loop over the applications, each was handed to the platform or is blamed.
use text.Mathlib.TextLemmas.{append_assoc, append-nil}
use baetyl.Base.{
  String, ◌<>◌, Option, none, some, List, [], ◌∷◌, ◌≡◌, ◌⊎◌, inl, inr, refl, sym, ap, ◌∙◌, subst,
  arith, In, In-append, ◌==◌, string_eq, if◌then◌else◌,
}
use baetyl.Base.Dict
use baetyl.Base.Dict.{Dict, lookup-insert}
use baetyl.Spec.{AppInfo, AppStats}
use baetyl.Engine.Collide.{Stats}
use baetyl.Engine.Apply.{
  Lib, State, Applied, apply_app, add_cause, blank_stat, note_error, apply_each, apply_apps,
}
use baetyl.Engine.Apply.Laws.{HandedOver, apply_app-Told}

-- The text stands in the cause of the application's state.
pub record Mentions (name text : String) (stats : Stats) : Type 0 where
  pub stat : AppStats
  pub found : Dict.lookup name stats ≡ some stat
  pub before : String
  pub after : String
  pub cause : stat.cause ≡ before <> text <> after

module _ (lib : Lib) (ns : String) where
  -- The application was handed over, with the application of the store.
  pub record Delivered (info : AppInfo) (s : State) : Type 0 where
    pub at : State
    pub handed : HandedOver lib ns info at (apply_app lib ns info at)
    pub kept : In handed.call s.applied

  -- It failed to be applied, and its state tells why.
  pub record Blamed (info : AppInfo) (stats : Stats) : Type 0 where
    pub at : State
    pub text : String
    pub fails : (apply_app lib ns info at).0 ≡ some text
    pub told : Mentions info.name text stats

  stat_at : String → Stats → AppStats
  stat_at name stats = elim (Dict.lookup name stats) [ none ↦ blank_stat lib | some x ↦ x ]

  stat_at-found :
      (name : String) (stats : Stats) (x : AppStats)
      → Dict.lookup name stats ≡ some x
      → stat_at name stats ≡ x
  unfolding stat_at
  stat_at-found name stats x h = ground arith

  add_cause-lookup :
      (info : AppInfo) (e : String) (stats : Stats) (name : String)
      → Dict.lookup name (add_cause lib info e stats) ≡ (
          if name == info.name
          then some
              (record (stat_at info.name stats) { cause = (stat_at info.name stats).cause <> e })
          else Dict.lookup name stats)
  unfolding add_cause stat_at
  add_cause-lookup info e stats name = lookup-insert name info.name _ stats

  add_cause-mentions :
      (info : AppInfo) (e : String) (stats : Stats)
      → Mentions info.name e (add_cause lib info e stats)
  add_cause-mentions info e stats = record {
    stat = record (stat_at info.name stats) { cause = (stat_at info.name stats).cause <> e };
    found = ground (arith, add_cause-lookup info e stats info.name);
    before = (stat_at info.name stats).cause;
    after = "";
    cause = sym (ap (λ x. (stat_at info.name stats).cause <> x) (append-nil e));
  }

  note_error-keeps :
      (info : AppInfo) (err : Option String) (stats : Stats) (name text : String)
      → Mentions name text stats
      → Mentions name text (note_error lib info err stats)
  unfolding note_error
  note_error-keeps info none stats name text h = h
  note_error-keeps info (some e) stats name text h = elim (string_eq.dec name info.name) [
    | yes p ↦ record {
      stat = record (stat_at info.name stats) { cause = (stat_at info.name stats).cause <> e };
      found = ground (arith, add_cause-lookup info e stats name);
      before = h.before;
      after = h.after <> e;
      cause =
          ap (λ (x : AppStats). x.cause <> e)
            (stat_at-found info.name stats h.stat (sym (ap (λ n. Dict.lookup n stats) p) ∙ h.found))
          ∙ ap (λ c. c <> e) h.cause
          ∙ append_assoc h.before (text <> h.after) e
          ∙ ap (λ x. h.before <> x) (append_assoc text h.after e);
    }
    | no q ↦ record {
      stat = h.stat;
      found = ground (arith, add_cause-lookup info e stats name, h.found);
      before = h.before;
      after = h.after;
      cause = h.cause;
    }
  ]

  note_error-mentions :
      (info : AppInfo) (e : String) (stats : Stats)
      → Mentions info.name e (note_error lib info (some e) stats)
  unfolding note_error
  note_error-mentions info e stats = add_cause-mentions info e stats

  apply_each-keeps_mention :
      (name text : String) (infos : List AppInfo) (stats : Stats) (s : State)
      → Mentions name text stats
      → Mentions name text (apply_each lib ns infos (stats, s)).0
  unfolding apply_each
  apply_each-keeps_mention name text [] stats s h = h
  apply_each-keeps_mention name text (info ∷ infos) stats s h =
      let (e, s') = apply_app lib ns info s in
      apply_each-keeps_mention name text infos (note_error lib info e stats) s'
        (note_error-keeps info e stats name text h)

  apply_app-keeps_call :
      (info : AppInfo) (s : State) (x : Applied)
      → In x s.applied
      → In x (apply_app lib ns info s).1.applied
  apply_app-keeps_call info s x h = elim (apply_app-Told lib ns info s) [
    | inl (e, p, same) ↦ subst (In x) (sym same) h
    | inr (p, handed) ↦ subst (In x) (sym handed.called) (In-append x s.applied _ (inl h))
  ]

  apply_each-keeps_call :
      (x : Applied) (infos : List AppInfo) (stats : Stats) (s : State)
      → In x s.applied
      → In x (apply_each lib ns infos (stats, s)).1.applied
  unfolding apply_each
  apply_each-keeps_call x [] stats s h = h
  apply_each-keeps_call x (info ∷ infos) stats s h =
      let (e, s') = apply_app lib ns info s in
      apply_each-keeps_call x infos (note_error lib info e stats) s'
        (apply_app-keeps_call info s x h)

  apply_each-Told :
      (infos : List AppInfo) (stats : Stats) (s : State) (info : AppInfo)
      → In info infos
      → let r = apply_each lib ns infos (stats, s) in Delivered info r.1 ⊎ Blamed info r.0
  unfolding apply_each
  apply_each-Told [] stats s info m = absurd m
  apply_each-Told (first ∷ infos) stats s info (inr m) =
      let (e, s') = apply_app lib ns first s in
      apply_each-Told infos (note_error lib first e stats) s' info m
  apply_each-Told (first ∷ infos) stats s info (inl p) =
      let (err, s') = apply_app lib ns first s in
      let final = apply_each lib ns infos (note_error lib first err stats, s') in
      elim (apply_app-Told lib ns first s) [
        | inr (q, handed) ↦ inl (
            subst (λ i. Delivered i final.1) (sym p)
              (record {
                at = s;
                handed = handed;
                kept = apply_each-keeps_call handed.call infos (note_error lib first err stats) s' (
                    subst (In handed.call) (sym handed.called)
                      (In-append handed.call s.applied _ (inr (inl refl))));
              }))
        | inl (e, q, same) ↦ inr (
            subst (λ i. Blamed i final.0) (sym p)
              (record {
                at = s;
                text = e;
                fails = q;
                told =
                    apply_each-keeps_mention first.name e infos (note_error lib first err stats) s'
                      (subst (λ x. Mentions first.name e (note_error lib first x stats)) (sym q)
                        (note_error-mentions first e stats));
              }))
      ]

  pub apply_apps-Told :
      (infos : Dict String AppInfo) (stats : Stats) (s : State) (info : AppInfo)
      → In info (Dict.values infos)
      → let r = apply_apps lib ns infos stats s in Delivered info r.1 ⊎ Blamed info r.0
  unfolding apply_apps
  apply_apps-Told infos stats s info m =
      apply_each-Told (lib.range.order AppInfo (Dict.values infos)) stats s info
        ((lib.range.in_order AppInfo info (Dict.values infos)).1 m)
