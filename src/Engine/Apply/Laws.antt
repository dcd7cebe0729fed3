-- ===== src/Engine/Apply/Laws.antt =====
-- What is handed to the platform, and what is told of the applications that are not.
use baetyl.Base.{
  String, ◌<>◌, none, some, [], ◌∷◌, ◌++◌, ◌≡◌, ◌⊎◌, inl, inr, refl, sym, ap, ◌∙◌, subst, arith,
  Option-cases, string_eq,
}
use baetyl.Base.Dict
use baetyl.Base.Dict.{Dict, lookup-insert}
use baetyl.Keys.{make_key}
use baetyl.Message.{done}
use baetyl.Message.Laws.{Try-cases}
use baetyl.Spec.{AppInfo, Application}
use baetyl.Sync.Desire.{Store, sync_resource}
use baetyl.Engine.Apply.Handed.{AsStored, build-AsStored}
use baetyl.Engine.Apply.{
  Lib, store_get, drawn, State, Outcome, Applied, store_custom, note_custom, note_if_custom,
  and_then, build, hand_over, apply_stored, apply_app,
}

module _ (lib : Lib) where
  -- The list of custom applications is the only thing that the step of it changes.
  note_if_custom-same :
      (info : AppInfo) (app : Application) (s : State)
      → ((note_if_custom lib info app s).1.applied ≡ s.applied)
        × ((note_if_custom lib info app s).1.store ≡ s.store)
  unfolding note_if_custom note_custom store_custom
  note_if_custom-same info app s = (ground arith, ground arith)

  -- What the step of one application tells: it is handed over once, or nothing is.
  pub record HandedOver (ns : String) (info : AppInfo) (s : State) (o : Outcome) : Type 0 where
    pub call : Applied
    pub app : Application
    pub stored :
        Dict.lookup (make_key lib.desire.kind_application info.name info.version) o.1.store.apps
        ≡ some app
    pub called : o.1.applied ≡ s.applied ++ (call ∷ [])
    pub namespace : call.namespace ≡ ns
    pub same : AsStored lib o.1.store app call

  abbrev pub Kept : State → Outcome → Type 0
  Kept s o = (e : String) × (o.0 ≡ some e) × (o.1.applied ≡ s.applied)

  abbrev pub Told : String → AppInfo → State → Outcome → Type 0
  Told ns info s o = Kept s o ⊎ ((o.0 ≡ none) × HandedOver ns info s o)

  hand_over-Told :
      (ns : String) (info : AppInfo) (app : Application) (s : State)
      → Dict.lookup (make_key lib.desire.kind_application info.name info.version) s.store.apps
        ≡ some app
      → Told ns info s (hand_over lib (build lib ns app s) (drawn lib app s))
  unfolding hand_over
  hand_over-Told ns info app s found = elim (Try-cases (build lib ns app s)) [
    | inl (e, p) ↦ inl (e, ground arith, ground arith)
    | inr (x, p) ↦ elim (Option-cases (lib.apply_error x)) [
      | inr (e, q) ↦ inl (e, ground arith, ground arith)
      | inl q ↦
          let (n, same) = build-AsStored lib ns app s x p in
          let store : s.store ≡ (hand_over lib (build lib ns app s) (drawn lib app s)).1.store =
            ground arith in
          inr (
            ground arith,
            record {
              call = x;
              app = app;
              stored = ground arith;
              called = ground arith;
              namespace = n;
              same = subst (λ st. AsStored lib st app x) store same;
            },
          )
    ]
  ]

  move :
      (ns : String) (info : AppInfo) (s s' : State) (o o' : Outcome)
      → s'.applied ≡ s.applied
      → o ≡ o'
      → Told ns info s' o'
      → Told ns info s o
  move ns info s s' o o' e p t = subst (Told ns info s) (sym p) (elim t [
    | inl (why, q, r) ↦ inl (why, q, r ∙ e)
    | inr (q, h) ↦ inr (
      q,
      record {
        call = h.call;
        app = h.app;
        stored = h.stored;
        called = h.called ∙ ap (λ l. l ++ (h.call ∷ [])) e;
        namespace = h.namespace;
        same = h.same;
      },
    )
  ])

  and_then-stops :
      (o : Outcome) (next : State → Outcome) (e : String)
      → o.0 ≡ some e
      → and_then lib o next ≡ (some e, o.1)
  and_then-stops (some e', s) next e h = ground arith
  and_then-stops (none, s) next e h = ground arith

  and_then-goes :
      (o : Outcome) (next : State → Outcome) → o.0 ≡ none → and_then lib o next ≡ next o.1
  and_then-goes (some e, s) next h = ground arith
  and_then-goes (none, s) next h = refl

  found_entry :
      (info : AppInfo) (s : State) (app : Application)
      → store_get lib (make_key lib.desire.kind_application info.name info.version) s.store.apps
        ≡ done app
      → Dict.lookup (make_key lib.desire.kind_application info.name info.version) s.store.apps
        ≡ some app
  unfolding store_get
  found_entry info s app h =
      elim (Option-cases
        (Dict.lookup (make_key lib.desire.kind_application info.name info.version) s.store.apps)) [
          | inl p ↦ ground arith
          | inr (b, p) ↦ ground arith
        ]

  apply_stored-Told :
      (ns : String) (info : AppInfo) (s : State) → Told ns info s (apply_stored lib ns info s)
  unfolding apply_stored
  apply_stored-Told ns info s =
      elim (Try-cases (
        store_get lib (make_key lib.desire.kind_application info.name info.version) s.store.apps)) [
          | inl (e, p) ↦ inl (
            "failed to get app name: () version: () with error: " <> e,
            ground arith,
            ground arith,
          )
          | inr (app, found) ↦
              let p = found_entry info s app found in
              let (kept, store) = note_if_custom-same info app s in
              let s1 = (note_if_custom lib info app s).1 in
              let next : State → Outcome =
                λ s'. hand_over lib (build lib ns app s') (drawn lib app s') in
              let ran : apply_stored lib ns info s
                  ≡ and_then lib (note_if_custom lib info app s) next =
                ground arith in
              elim (Option-cases (note_if_custom lib info app s).0) [
                | inr (e, q) ↦
                    let o = ran ∙ and_then-stops (note_if_custom lib info app s) next e q in
                    inl (e, ap (λ (o : Outcome). o.0) o, ap (λ (o : Outcome). o.1.applied) o ∙ kept)
                | inl q ↦
                    move ns info s s1 _ (next s1) kept
                      (ran ∙ and_then-goes (note_if_custom lib info app s) next q)
                      (hand_over-Told ns info app s1 (
                        ap
                          (λ (st : Store).
                            Dict.lookup
                              (make_key lib.desire.kind_application info.name info.version) st.apps)
                          store
                        ∙ p))
              ]
        ]

  pub apply_app-Told :
      (ns : String) (info : AppInfo) (s : State) → Told ns info s (apply_app lib ns info s)
  unfolding apply_app
  apply_app-Told ns info s =
      let synced = sync_resource lib.range lib.desire info s.store in
      let s1 : State = record s { store = synced.1 } in
      elim (Option-cases synced.0) [
        | inr (e, p) ↦ inl (lib.failure_text e, ground arith, ground arith)
        | inl p ↦
            move ns info s s1 _ (apply_stored lib ns info s1) refl (ground arith)
              (apply_stored-Told ns info s1)
      ]
