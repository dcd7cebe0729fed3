-- ===== src/Sync/Shadow/Laws.antt =====
-- The two ways in which the desire of the cloud comes: a message of the link, or the answer to a report.
use baetyl.Base.{
  String, true, false, none, some, List, [], ◌∷◌, ◌++◌, ◌≡◌, ◌⊎◌, inl, inr, refl, ap, ◌∙◌, arith,
}
use baetyl.Message.{done, Message, report, publish, topic_event, topic_dm}
use baetyl.Node.Defs
use baetyl.Node.Laws.{Result-cases}
use baetyl.Node.Defs.{Result, ok, err, Shadow, Doc}
use baetyl.Sync.Shadow.{
  Lib, State, Outcome, and_then, post, props_in, devices_in, props_message, devices_message,
  send_event, sync_devices, sync_delta, with_delta, dispatch_report, dispatch, report_message,
  report_sync, report_and_desire,
}

module _ (lib : Lib) where
  open lib use {node}

  both_steps : Doc (node.Value) → State lib → Outcome lib
  both_steps delta s = and_then lib (send_event lib delta s) (sync_devices lib delta)

  -- With no event to send, the two ways do the same with a difference.
  same_delta :
      (delta : Doc (node.Value)) (s : State lib)
      → (lib.notify ≡ false) ⊎ (props_in lib delta ≡ none)
      → sync_delta lib delta s ≡ both_steps delta s
  unfolding both_steps sync_delta send_event
  same_delta delta s h = ground arith

  -- The answer of the cloud, as a message of the link.
  abbrev pub as_report : Message (lib.Content) → Message (lib.Content)
  as_report m = record m { kind = report }

  -- No event is to be sent for what the desire changes.
  abbrev pub Quiet : Doc (node.Value) → State lib → Type 0
  Quiet d s =
      (lib.notify ≡ false)
      ⊎ ((delta : Doc (node.Value))
          → (Defs.desire node d true s.cell).0 ≡ ok delta
          → props_in lib delta ≡ none)

  with_delta-same :
      (d : Doc (node.Value)) (s : State lib)
      → Quiet d s
      → with_delta lib d (sync_delta lib) s ≡ with_delta lib d both_steps s
  unfolding with_delta
  with_delta-same [] s h = refl
  with_delta-same (x ∷ d) s h = elim (Result-cases (Defs.desire node (x ∷ d) true s.cell).0) [
    | inl (e, p) ↦ ground arith
    | inr (delta, p) ↦
        let s' : State lib = record s { cell = (Defs.desire node (x ∷ d) true s.cell).1 } in
        let q =
          same_delta delta s' (elim h [ inl n ↦ inl n | inr none_in ↦ inr (none_in delta p) ]) in
        ground arith
  ]

  -- If no event is to be sent for what the desire changes, a report over a link that answers
  -- does with the answer what the same content does as a message of the link.
  pub report_and_desire-dispatch :
      (shadow : Shadow (node.Value)) (res : Message (lib.Content)) (d : Doc (node.Value))
      (s : State lib)
      → Defs.get node s.cell ≡ ok shadow
      → lib.async ≡ false
      → lib.request (report_message lib shadow) ≡ done res
      → lib.as_desire res.content ≡ done d
      → Quiet d s
      → report_and_desire lib s ≡ dispatch lib (as_report res) s
  unfolding report_and_desire report_sync dispatch dispatch_report both_steps
  report_and_desire-dispatch shadow res d s got sync answered desired quiet =
      let q = with_delta-same d s quiet in ground arith

  with_delta-runs :
      (next : Doc (node.Value) → State lib → Outcome lib) (x : String × node.Value)
      (d delta : Doc (node.Value)) (s : State lib)
      → lib.is_core ≡ true
      → (Defs.desire node (x ∷ d) true s.cell).0 ≡ ok delta
      → with_delta lib (x ∷ d) next s
        ≡ next delta (record s { cell = (Defs.desire node (x ∷ d) true s.cell).1 })
  unfolding with_delta
  with_delta-runs next x d delta s core p = ground arith

  abbrev told : List (String × Message (lib.Content)) → State lib → State lib
  told ms s = record s { bus = record s.bus { published = s.bus.published ++ ms } }

  sync_delta-drops :
      (delta props : Doc (node.Value)) (s : State lib)
      → lib.notify ≡ true
      → props_in lib delta ≡ some props
      → ((topic : String) (m : Message (lib.Content)) → lib.bus.publish_error topic m ≡ none)
      → sync_delta lib delta s ≡ (none, told ((topic_event, props_message lib props) ∷ []) s)
  unfolding sync_delta post publish
  sync_delta-drops delta props s n p never =
      ground (arith, never topic_event (props_message lib props))

  both_steps-tells :
      (delta props : Doc (node.Value)) (ds : List (node.Value)) (s : State lib)
      → lib.notify ≡ true
      → props_in lib delta ≡ some props
      → devices_in lib delta ≡ some ds
      → ((topic : String) (m : Message (lib.Content)) → lib.bus.publish_error topic m ≡ none)
      → both_steps delta s ≡ (
        none,
        told
            ((topic_dm, devices_message lib ds) ∷ [])
            (told ((topic_event, props_message lib props) ∷ []) s),
      )
  unfolding both_steps send_event sync_devices post publish
  both_steps-tells delta props ds s n p q never =
      ground (
        arith,
        never topic_event (props_message lib props),
        never topic_dm (devices_message lib ds),
      )

  -- The cloud answered a report with a desire, which changes the shadow by `delta`.
  pub record Answered (res : Message (lib.Content)) (x : String × node.Value)
      (d delta : Doc (node.Value)) (s : State lib) : Type 0 where
    pub shadow : Shadow (node.Value)
    pub loaded : Defs.get node s.cell ≡ ok shadow
    pub sync : lib.async ≡ false
    pub answer : lib.request (report_message lib shadow) ≡ done res
    pub content : lib.as_desire res.content ≡ done (x ∷ d)
    pub changed : (Defs.desire node (x ∷ d) true s.cell).0 ≡ ok delta
    pub core : lib.is_core ≡ true

  report_and_desire-next :
      (res : Message (lib.Content)) (x : String × node.Value) (d delta : Doc (node.Value))
      (s : State lib)
      → Answered res x d delta s
      → report_and_desire lib s
        ≡ sync_delta lib delta (record s { cell = (Defs.desire node (x ∷ d) true s.cell).1 })
  unfolding report_and_desire report_sync
  report_and_desire-next res x d delta s a =
      let q = with_delta-runs (sync_delta lib) x d delta s a.core a.changed in
      let l = a.loaded in let n = a.sync in let r = a.answer in let c = a.content in ground arith

  dispatch-next :
      (res : Message (lib.Content)) (x : String × node.Value) (d delta : Doc (node.Value))
      (s : State lib)
      → Answered res x d delta s
      → dispatch lib (as_report res) s
        ≡ both_steps delta (record s { cell = (Defs.desire node (x ∷ d) true s.cell).1 })
  unfolding dispatch dispatch_report both_steps
  dispatch-next res x d delta s a =
      let q = with_delta-runs both_steps x d delta s a.core a.changed in
      let l = a.loaded in let c = a.content in ground arith

  -- If the answer to a report changes both properties of the node and devices, events are to
  -- be sent and the bus takes them, then only the properties are published, while the same
  -- content as a message of the link has both published.
  pub answer_drops_devices :
      (res : Message (lib.Content)) (x : String × node.Value) (d delta props : Doc (node.Value))
      (ds : List (node.Value)) (s : State lib)
      → Answered res x d delta s
      → lib.notify ≡ true
      → props_in lib delta ≡ some props
      → devices_in lib delta ≡ some ds
      → ((topic : String) (m : Message (lib.Content)) → lib.bus.publish_error topic m ≡ none)
      → ((report_and_desire lib s).1.bus.published
          ≡ s.bus.published ++ ((topic_event, props_message lib props) ∷ []))
        × ((dispatch lib (as_report res) s).1.bus.published
            ≡ s.bus.published
              ++ ((topic_event, props_message lib props) ∷ [])
              ++ ((topic_dm, devices_message lib ds) ∷ []))
  answer_drops_devices res x d delta props ds s a n p q never =
      let s' : State lib = record s { cell = (Defs.desire node (x ∷ d) true s.cell).1 } in
      (
        ap (λ (o : Outcome lib). o.1.bus.published)
            (report_and_desire-next res x d delta s a ∙ sync_delta-drops delta props s' n p never),
        ap (λ (o : Outcome lib). o.1.bus.published)
            (dispatch-next res x d delta s a ∙ both_steps-tells delta props ds s' n p q never),
      )
