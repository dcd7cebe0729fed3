-- ===== src/Engine/Downside/Replies.antt =====
-- The replies of the commands that have an answer: the last message on the bus, with the token of the request.
use mathlib.Core.List.{append_assoc}
use baetyl.Base.{
  String, Bool, true, false, Option, none, some, List, [], ◌∷◌, ◌++◌, ◌≡◌, inl, inr, refl, sym,
  subst, ◌∙◌, arith, Option-cases, string_eq, if◌then◌else◌,
}
use baetyl.Base.Dict
use baetyl.Base.Range.{Range}
use baetyl.Base.Dict.{Dict}
use baetyl.Message.{cmd, data_message, meta, publish, topic_upside, topic_event}
use baetyl.Engine.Downside.{
  Lib, State, Request, Outcome, Command, label_cmd, rpc_cmd, agent_cmd, rpc_mqtt_cmd, describe_cmd,
  connect_cmd, logs_cmd, disconnect_cmd, multi_label_cmd, unknown_cmd, tell, failed_reply,
  success_reply, publish_failed_msg, publish_success_msg, fail, label, node_label, assemble_url,
  rpc, rpc_mqtt, agent_control, describe, run_command,
}
use baetyl.Message.Laws.{Try-cases}

abbrev success_of : Option String → String
success_of none = "true"
success_of (some e) = "false"

module _ (lib : Lib) where
  -- The bus takes every message.
  abbrev pub NeverFails : Type 0
  NeverFails = (topic : String) (m : Request lib) → lib.bus.publish_error topic m ≡ none

  -- After what was on the bus before, and the request itself where the handler passes it on as an
  -- event, one reply goes upside: it has the request's token, and tells the outcome.
  pub record Replied (passes : Bool) (m : Request lib) (before : List (String × Request lib))
      (o : Outcome lib) : Type 0 where
    pub sent : List (String × Request lib)
    pub passed : sent ≡ (if passes then (topic_event, m) ∷ [] else [])
    pub reply : Request lib
    pub last : o.1.bus.published ≡ before ++ (sent ++ ((topic_upside, reply) ∷ []))
    pub token : meta "token" reply ≡ meta "token" m
    pub success : meta "success" reply ≡ success_of o.0

  tell-published :
      (r : Request lib) (s : State lib)
      → NeverFails
      → (tell lib r s).bus.published ≡ s.bus.published ++ ((topic_upside, r) ∷ [])
  unfolding publish
  tell-published r s never = ground (arith, never topic_upside r)

  fail-Replied :
      (reason : String) (m : Request lib) (s : State lib)
      → NeverFails
      → Replied false m s.bus.published (fail lib reason m s)
  unfolding fail publish_failed_msg Dict.lookup string_eq
  fail-Replied reason m s never = record {
    sent = [];
    passed = refl;
    reply = failed_reply lib reason m;
    last = tell-published (failed_reply lib reason m) s never;
    token = refl;
    success = refl;
  }

  success-Replied :
      (m : Request lib) (s : State lib)
      → NeverFails
      → Replied false m s.bus.published (none, publish_success_msg lib m s)
  unfolding publish_success_msg Dict.lookup string_eq
  success-Replied m s never =
      let r = success_reply lib cmd lib.empty m in
      record {
        sent = [];
        passed = refl;
        reply = r;
        last = tell-published r s never;
        token = refl;
        success = refl;
      }

  abbrev to :
      (m : Request lib) (s : List (String × Request lib)) {o o' : Outcome lib}
      → o ≡ o'
      → Replied false m s o'
      → Replied false m s o
  to m s e r = subst (λ o. Replied false m s o) (sym e) r

  tell-Replied :
      (r : Request lib) (m : Request lib) (s : State lib)
      → NeverFails
      → meta "token" r ≡ meta "token" m
      → meta "success" r ≡ "true"
      → Replied false m s.bus.published (none, tell lib r s)
  tell-Replied r m s never token success = record {
    sent = [];
    passed = refl;
    reply = r;
    last = tell-published r s never;
    token = token;
    success = success;
  }

  node_label-Replied :
      (key : String) (m : Request lib) (s : State lib)
      → NeverFails
      → Replied false m s.bus.published (node_label lib key m s)
  unfolding node_label label
  node_label-Replied key m s never = elim (Option-cases (Dict.lookup "subName" m.metadata)) [
    | inl p ↦
        to m s.bus.published (ground arith) (fail-Replied "failed to get sub node name" m s never)
    | inr (name, p) ↦ elim (Try-cases (lib.as_labels m.content)) [
      | inl (e, q) ↦ to m s.bus.published (ground arith) (fail-Replied e m s never)
      | inr (labels, q) ↦ elim (Option-cases (lib.update_node_labels name labels)) [
        | inr (e, r) ↦ to m s.bus.published (ground arith) (fail-Replied e m s never)
        | inl r ↦
            let done_s : State lib = record s { labelled = s.labelled ++ ((name, labels) ∷ []) } in
            to m s.bus.published (ground arith) (success-Replied m done_s never)
      ]
    ]
  ]

  rpc-Replied :
      (key : String) (m : Request lib) (s : State lib)
      → NeverFails
      → Replied false m s.bus.published (rpc lib key m s)
  unfolding rpc Dict.lookup string_eq
  rpc-Replied key m s never = elim (Try-cases (lib.as_request m.content)) [
    | inl (e, p) ↦ to m s.bus.published (ground arith) (fail-Replied e m s never)
    | inr (request, p) ↦ elim (Try-cases (lib.rpc_app (assemble_url lib request) request)) [
      | inl (e, q) ↦ to m s.bus.published (ground arith) (fail-Replied e m s never)
      | inr (res, q) ↦
          to m s.bus.published (ground arith)
            (tell-Replied (success_reply lib cmd (lib.of_response res) m) m s never refl refl)
    ]
  ]

  agent-Replied :
      (key : String) (m : Request lib) (s : State lib)
      → NeverFails
      → Replied false m s.bus.published (agent_control lib key m s)
  unfolding agent_control Dict.lookup string_eq
  agent-Replied key m s never = elim (Option-cases lib.agent) [
    | inl p ↦
        to m s.bus.published (ground arith)
          (fail-Replied "failed to request for the not set agent" m s never)
    | inr (client, p) ↦ elim (Try-cases (client (meta "action" m))) [
      | inl (e, q) ↦ to m s.bus.published (ground arith) (fail-Replied e m s never)
      | inr (flag, q) ↦
          let r : Request lib = record {
            kind = cmd;
            metadata =
                ("success", "true")
                ∷ ("token", meta "token" m)
                ∷ ("stat", if flag then "true" else "false")
                ∷ [];
            content = lib.empty;
          } in
          to m s.bus.published (ground arith) (tell-Replied r m s never refl refl)
    ]
  ]

  describe-Replied :
      (key : String) (m : Request lib) (s : State lib)
      → NeverFails
      → Replied false m s.bus.published (describe lib key m s)
  unfolding describe Dict.lookup string_eq
  describe-Replied key m s never =
      elim (Try-cases
        (lib.remote_describe (meta "resourceType" m) (meta "namespace" m) (meta "name" m))) [
          | inl (e, p) ↦ to m s.bus.published (ground arith) (fail-Replied e m s never)
          | inr (res, p) ↦ to m s.bus.published (ground arith) (
              tell-Replied (success_reply lib data_message (lib.of_bytes res) m) m s never refl
                refl)
        ]

  rpc_mqtt-Replied :
      (key : String) (m : Request lib) (s : State lib)
      → NeverFails
      → Replied true m s.bus.published (rpc_mqtt lib key m s)
  unfolding rpc_mqtt publish publish_success_msg Dict.lookup string_eq
  rpc_mqtt-Replied key m s never =
      let told : State lib = record s {
        bus = record s.bus { published = s.bus.published ++ ((topic_event, m) ∷ []) };
      } in
      let r = success_reply lib cmd lib.empty m in
      let ran : rpc_mqtt lib key m s ≡ (none, publish_success_msg lib m told) =
        ground (arith, never topic_event m) in
      subst (λ o. Replied true m s.bus.published o) (sym ran)
        (record {
          sent = (topic_event, m) ∷ [];
          passed = refl;
          reply = r;
          last =
              tell-published r told never
              ∙ append_assoc s.bus.published ((topic_event, m) ∷ []) ((topic_upside, r) ∷ []);
          token = refl;
          success = refl;
        })

  -- The commands that the cloud waits for.
  abbrev pub is_answered : Command → Bool
  is_answered label_cmd = true
  is_answered rpc_cmd = true
  is_answered agent_cmd = true
  is_answered rpc_mqtt_cmd = true
  is_answered describe_cmd = true
  is_answered _ = false

  -- The command that is passed on as an event.
  abbrev pub is_passed_on : Command → Bool
  is_passed_on rpc_mqtt_cmd = true
  is_passed_on _ = false

  -- On a bus that takes every message, a command to label a node, to call an application, to
  -- control the agent, to raise an event or to describe a resource is answered whatever
  -- happens: after the request itself on the topic of events, for a command to raise one, and
  -- after nothing for the others, exactly one reply is published, upside, with the request's
  -- token and the success of the command.
  pub run_command-Replied :
      (range : Range) (command : Command) (key : String) (m : Request lib) (s : State lib)
      → is_answered command ≡ true
      → NeverFails
      → Replied (is_passed_on command) m s.bus.published (run_command lib range command key m s)
  unfolding run_command
  run_command-Replied range label_cmd key m s h never = node_label-Replied key m s never
  run_command-Replied range rpc_cmd key m s h never = rpc-Replied key m s never
  run_command-Replied range agent_cmd key m s h never = agent-Replied key m s never
  run_command-Replied range rpc_mqtt_cmd key m s h never = rpc_mqtt-Replied key m s never
  run_command-Replied range describe_cmd key m s h never = describe-Replied key m s never
  run_command-Replied range connect_cmd key m s h never = ground arith
  run_command-Replied range logs_cmd key m s h never = ground arith
  run_command-Replied range disconnect_cmd key m s h never = ground arith
  run_command-Replied range multi_label_cmd key m s h never = ground arith
  run_command-Replied range unknown_cmd key m s h never = ground arith
