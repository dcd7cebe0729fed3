-- ===== src/Engine/Downside/Laws.antt =====
-- The sessions of the handler: each stands under the key of its own topic, and a session that times
-- out is ended by the message it sends.
use text.Mathlib.TextLemmas.{append_assoc}
use baetyl.Base.{
  String, ◌<>◌, Bool, true, false, some, List, [], ◌∷◌, ◌≡◌, ◌≢◌, ◌⊎◌, inl, inr, refl, sym, ap, ◌∙◌,
  subst, arith, Option-cases, string_eq,
}
use baetyl.Base.Dict
use baetyl.Base.Dict.{Dict, lookup-insert, lookup-delete}
use baetyl.Base.Range.{Range}
use baetyl.Message.{MessageKind, Try, done, cmd, data_message, meta, Bus}
use baetyl.Message.Laws.{Try-cases}
use baetyl.Chain.{Chain, topic_of, new_chain}
use baetyl.Chain.Laws.{get, IsOf, new_chain-IsOf}
use baetyl.Engine.Downside.{
  Lib, State, Request, Outcome, Command, connect_cmd, logs_cmd, disconnect_cmd, label_cmd,
  multi_label_cmd, rpc_cmd, agent_cmd, rpc_mqtt_cmd, describe_cmd, unknown_cmd, key_of, downside_of,
  fail_as, close_old, open_chain, connect, view_logs, disconnect, send_exit, label, node_label,
  label_all, label_multi_nodes, rpc, rpc_mqtt, agent_control, describe, forward, run_command,
  on_message,
}

-- The key that a session's own fields make.
abbrev pub named : Chain → String
named c =
    c.options.namespace <> "_" <> c.options.name <> "_" <> c.options.container <> "_" <> c.token

pub topic-downside :
    (a b c d : String) → topic_of a b c d ≡ (a <> "_" <> b <> "_" <> c <> "_" <> d) <> "_" <> "down"
topic-downside a b c d = simp append_assoc

Kind-cases : (k : MessageKind) → (k ≡ cmd) ⊎ (k ≡ data_message) ⊎ ((k ≢ cmd) × (k ≢ data_message))
Kind-cases k = ground arith

module _ (lib : Lib) where
  -- The session is under the key of its fields, and listens to the topic of that key.
  pub record Session (key : String) (c : Chain) : Type 0 where
    pub under : named c ≡ key
    pub listens : c.downside ≡ downside_of lib key

  abbrev pub Sessions : State lib → Type 0
  Sessions s = (key : String) (c : Chain) → Dict.lookup key s.chains ≡ some c → Session key c

  pub IsOf-Session : (m : Request lib) (c : Chain) → IsOf m.metadata c → Session (key_of lib m) c
  unfolding key_of
  IsOf-Session m c o =
      let t =
        topic-downside (get "namespace" m.metadata) (get "name" m.metadata)
          (get "container" m.metadata) (get "token" m.metadata) in
      record {
        under = rw (o.namespace, o.name, o.container, o.token) refl;
        listens = o.downside ∙ t;
      }

  close_old-Sessions : (key : String) (s : State lib) → Sessions s → Sessions (close_old lib key s)
  unfolding close_old
  close_old-Sessions key s h k c e = h k c (ground (arith, lookup-delete k key s.chains))

  abbrev pub made : Bool → Request lib → State lib → Try Chain × Bus (lib.Content)
  made need_native m s = new_chain lib.bus lib.plugin_error lib.native need_native m.metadata s.bus

  pub open_chain-adds :
      (need_native : Bool) (key k : String) (m : Request lib) (s : State lib) (c : Chain)
      → Dict.lookup k (open_chain lib need_native key m s).1.chains ≡ some c
      → (Dict.lookup k s.chains ≡ some c) ⊎ ((k ≡ key) × ((made need_native m s).0 ≡ done c))
  unfolding open_chain fail_as
  open_chain-adds need_native key k m s c e = elim (Try-cases (made need_native m s).0) [
    | inl (why, p) ↦ inl (ground arith)
    | inr (d, p) ↦ elim (Option-cases (lib.start_error d)) [
      | inr (why, q) ↦ inl (ground arith)
      | inl q ↦ ground (arith, lookup-insert k key d s.chains)
    ]
  ]

  open_chain-Sessions :
      (need_native : Bool) (m : Request lib) (s : State lib)
      → Sessions s
      → Sessions (open_chain lib need_native (key_of lib m) m s).1
  open_chain-Sessions need_native m s h k c e =
      elim (open_chain-adds need_native (key_of lib m) k m s c e) [
        | inl old ↦ h k c old
        | inr (same, new) ↦
            let o =
              new_chain-IsOf lib.bus lib.plugin_error lib.native need_native m.metadata s.bus
                (made need_native m s).1 c
                (ap {A = Try Chain} (λ t. (t, (made need_native m s).1)) new) in
            subst (λ x. Session x c) (sym same) (IsOf-Session m c o)
      ]

  disconnect-Sessions :
      (key : String) (m : Request lib) (s : State lib)
      → Sessions s
      → Sessions (disconnect lib key m s).1
  unfolding disconnect send_exit
  disconnect-Sessions key m s h k c e = h k c (ground (arith, lookup-delete k key s.chains))

  -- A call that leaves the sessions alone.
  abbrev SameChains : State lib → Outcome lib → Type 0
  SameChains s o = o.1.chains ≡ s.chains

  label-SameChains :
      (name : String) (labels : Dict String String) (s : State lib)
      → SameChains s (label lib name labels s)
  unfolding label
  label-SameChains name labels s = ground arith

  label_all-same :
      (nodes : List (String × Dict String String)) (errs : List String) (s : State lib)
      → (label_all lib nodes errs s).1.chains ≡ s.chains
  unfolding label_all
  label_all-same [] errs s = refl
  label_all-same ((name, labels) ∷ rest) errs s =
      label_all-same rest _ (label lib name labels s).1 ∙ label-SameChains name labels s

  node_label-SameChains :
      (key : String) (m : Request lib) (s : State lib) → SameChains s (node_label lib key m s)
  unfolding node_label label
  node_label-SameChains key m s = ground arith

  multi-SameChains :
      (range : Range) (key : String) (m : Request lib) (s : State lib)
      → SameChains s (label_multi_nodes lib range key m s)
  unfolding label_multi_nodes
  multi-SameChains range key m s = elim (Try-cases (lib.as_node_labels m.content)) [
    | inl (e, p) ↦ ground arith
    | inr (nodes, p) ↦
        let same = label_all-same (range.order (String × Dict String String) nodes) [] s in
        ground arith
  ]

  rpc-SameChains : (key : String) (m : Request lib) (s : State lib) → SameChains s (rpc lib key m s)
  unfolding rpc
  rpc-SameChains key m s = ground arith

  rpc_mqtt-SameChains :
      (key : String) (m : Request lib) (s : State lib) → SameChains s (rpc_mqtt lib key m s)
  unfolding rpc_mqtt
  rpc_mqtt-SameChains key m s = ground arith

  agent-SameChains :
      (key : String) (m : Request lib) (s : State lib) → SameChains s (agent_control lib key m s)
  unfolding agent_control
  agent-SameChains key m s = ground arith

  describe-SameChains :
      (key : String) (m : Request lib) (s : State lib) → SameChains s (describe lib key m s)
  unfolding describe
  describe-SameChains key m s = ground arith

  forward-SameChains :
      (key : String) (m : Request lib) (s : State lib) → SameChains s (forward lib key m s)
  unfolding forward
  forward-SameChains key m s = ground arith

  keep : (s : State lib) (o : Outcome lib) → SameChains s o → Sessions s → Sessions o.1
  keep s o same h key c e = h key c (sym (ap (λ d. Dict.lookup key d) same) ∙ e)

  view_logs-Sessions :
      (m : Request lib) (s : State lib) → Sessions s → Sessions (view_logs lib (key_of lib m) m s).1
  unfolding view_logs
  view_logs-Sessions m s h =
      let cleared = close_old-Sessions (key_of lib m) s h in
      let opened = open_chain-Sessions false m (close_old lib (key_of lib m) s) cleared in
      elim (Try-cases (lib.as_options m.content)) [
        | inl (e, p) ↦ λ key c q. cleared key c (ground arith)
        | inr (o, p) ↦ λ key c q. opened key c (ground arith)
      ]

  command-Sessions :
      (range : Range) (command : Command) (m : Request lib) (s : State lib)
      → Sessions s
      → Sessions (run_command lib range command (key_of lib m) m s).1
  unfolding run_command connect
  command-Sessions range connect_cmd m s h =
      open_chain-Sessions true m (close_old lib (key_of lib m) s)
        (close_old-Sessions (key_of lib m) s h)
  command-Sessions range logs_cmd m s h = view_logs-Sessions m s h
  command-Sessions range disconnect_cmd m s h = disconnect-Sessions (key_of lib m) m s h
  command-Sessions range label_cmd m s h =
      keep s (node_label lib (key_of lib m) m s) (node_label-SameChains (key_of lib m) m s) h
  command-Sessions range multi_label_cmd m s h =
      keep s (label_multi_nodes lib range (key_of lib m) m s)
        (multi-SameChains range (key_of lib m) m s) h
  command-Sessions range rpc_cmd m s h =
      keep s (rpc lib (key_of lib m) m s) (rpc-SameChains (key_of lib m) m s) h
  command-Sessions range agent_cmd m s h =
      keep s (agent_control lib (key_of lib m) m s) (agent-SameChains (key_of lib m) m s) h
  command-Sessions range rpc_mqtt_cmd m s h =
      keep s (rpc_mqtt lib (key_of lib m) m s) (rpc_mqtt-SameChains (key_of lib m) m s) h
  command-Sessions range describe_cmd m s h =
      keep s (describe lib (key_of lib m) m s) (describe-SameChains (key_of lib m) m s) h
  command-Sessions range unknown_cmd m s h = h

  -- If each session stands under the key of its own fields and listens to the topic of that
  -- key, this holds after any message.
  pub on_message-Sessions :
      (range : Range) (is_core : Bool) (command : String → Command) (m : Request lib)
      (s : State lib)
      → Sessions s
      → Sessions (on_message lib range is_core command m s).1
  unfolding on_message
  on_message-Sessions range false command m s h = h
  on_message-Sessions range true command m s h = elim (Kind-cases m.kind) [
    | inl p ↦
        let k = command-Sessions range (command (meta "cmd" m)) m s h in
        λ key c q. k key c (ground arith)
    | inr (inl p) ↦
        let k = keep s (forward lib (key_of lib m) m s) (forward-SameChains (key_of lib m) m s) h in
        λ key c q. k key c (ground arith)
    | inr (inr (p, q)) ↦ λ key c e. h key c (ground arith)
  ]
