-- ===== src/Engine/Downside.antt =====
-- engine/msg_handler.go: the commands that the cloud sends down to the engine.
pub mod Laws
pub mod Replies
pub mod Sessions
use mathlib.Core.Option
use baetyl.Base.{
  String, ◌<>◌, Bool, true, false, not, ◌&&◌, Option, none, some, List, [], ◌∷◌, ◌++◌, ◌==◌,
  string_eq, if◌then◌else◌,
}
use baetyl.Base.Dict
use baetyl.Base.Dict.{Dict}
use baetyl.Base.Range.{Range}
use baetyl.Base.Text.{contains}
use baetyl.Message.{
  Try, done, failed, MessageKind, cmd, data_message, Message, meta, Bus, BusLib, publish,
  topic_upside, topic_event,
}
use baetyl.Chain.{Chain, new_chain, close, exit_cmd}

-- `v1.RPCRequest`, with the fields of the address.
pub record RpcRequest : Type 0 where
  pub app : String
  pub params : String
  pub system : Bool

-- What the handler calls: the contents of messages, the bus, and the module of the platform.
pub record Lib : Type 1 where
  pub Content : Type 0
  pub Options : Type 0
  pub Response : Type 0
  pub empty : Content
  pub of_bytes : String → Content
  pub of_response : Response → Content
  pub as_labels : Content → Try (Dict String String)
  pub as_node_labels : Content → Try (Dict String (Dict String String))
  pub as_options : Content → Try Options
  pub as_request : Content → Try RpcRequest
  pub bus : BusLib Content
  pub update_node_labels : String → Dict String String → Option String
  pub rpc_app : String → RpcRequest → Try Response
  pub remote_describe : String → String → String → Try String
  pub agent : Option (String → Try Bool)
  pub plugin_error : Option String
  pub native : Bool
  pub start_error : Chain → Option String

-- The commands, by their constants in spec/v1.
pub data Command : Type 0 where
  connect_cmd logs_cmd disconnect_cmd label_cmd multi_label_cmd rpc_cmd agent_cmd rpc_mqtt_cmd
        describe_cmd :
      Command
  unknown_cmd : Command

module _ (lib : Lib) where
  open lib use {Content}

  abbrev pub Request : Type 0
  Request = Message Content

  -- The handler's sessions, the bus, and the labels that the platform was told to set.
  pub record State : Type 0 where
    pub chains : Dict String Chain
    pub bus : Bus Content
    pub labelled : List (String × Dict String String)

  abbrev pub Outcome : Type 0
  Outcome = Option String × State

  -- `fmt.Sprintf("%s_%s_%s_%s", ...)`
  unfoldable pub key_of : Request → String
  key_of m =
      meta "namespace" m
      <> "_"
      <> meta "name" m
      <> "_"
      <> meta "container" m
      <> "_"
      <> meta "token" m

  abbrev pub downside_of : String → String
  downside_of key = key <> "_" <> "down"

  abbrev pub tell : Request → State → State
  tell m s = record s { bus = (publish lib.bus topic_upside m s.bus).1 }

  abbrev pub failed_reply : String → Request → Request
  failed_reply reason m = record {
    kind = cmd;
    metadata = ("success", "false") ∷ ("msg", reason) ∷ ("token", meta "token" m) ∷ [];
    content = lib.empty;
  }

  abbrev pub success_reply : MessageKind → Content → Request → Request
  success_reply kind content m = record {
    kind = kind;
    metadata = ("success", "true") ∷ ("token", meta "token" m) ∷ [];
    content = content;
  }

  unfoldable pub publish_failed_msg : String → Request → State → State
  publish_failed_msg reason m s = tell (failed_reply reason m) s

  unfoldable pub publish_success_msg : Request → State → State
  publish_success_msg m s = tell (success_reply cmd lib.empty m) s

  -- `h.publishFailedMsg(key, reason, m); return errors.Trace(err)`
  unfoldable pub fail : String → Request → State → Outcome
  unfolding publish_failed_msg
  fail reason m s = (some reason, publish_failed_msg reason m s)

  -- A failure whose reply has another text than the error.
  unfoldable pub fail_as : String → String → Request → State → Outcome
  unfolding publish_failed_msg
  fail_as e reason m s = (some e, publish_failed_msg reason m s)

  -- The old session of the key is closed and forgotten.
  unfoldable pub close_old : String → State → State
  close_old key s = elim (Dict.lookup key s.chains) [
    | none ↦ s
    | some old ↦ record s { chains = Dict.delete key s.chains; bus = (close lib.bus old s.bus).1 }
  ]

  -- The new session is started, and then kept.
  unfoldable pub open_chain : Bool → String → Request → State → Outcome
  unfolding fail_as
  open_chain need_native key m s =
      let (made, bus') =
        new_chain lib.bus lib.plugin_error lib.native need_native m.metadata s.bus in
      let s' : State = record s { bus = bus' } in
      elim made [
        | failed e ↦ fail_as e "failed to create new chain" m s'
        | done c ↦ elim (lib.start_error c) [
          | some e ↦ fail_as e "failed to exec" m s'
          | none ↦ (none, record s' { chains = Dict.insert key c s'.chains })
        ]
      ]

  unfoldable pub connect : String → Request → State → Outcome
  unfolding close_old open_chain
  connect key m s = open_chain true key m (close_old key s)

  unfoldable pub view_logs : String → Request → State → Outcome
  unfolding close_old open_chain fail
  view_logs key m s = elim (lib.as_options m.content) [
    | failed e ↦ fail e m (close_old key s)
    | done _ ↦ open_chain false key m (close_old key s)
  ]

  -- `sendExit`: an error is logged.
  unfoldable pub send_exit : String → State → State
  send_exit key s =
      let exit : Request = record {
        kind = data_message;
        metadata = [];
        content = lib.of_bytes exit_cmd;
      } in
      record s { bus = (publish lib.bus (downside_of key) exit s.bus).1 }

  unfoldable pub disconnect : String → Request → State → Outcome
  unfolding send_exit
  disconnect key m s = elim (Dict.lookup key s.chains) [
    | none ↦ (none, s)
    | some c ↦ (
      none,
      record (send_exit key s) {
        chains = Dict.delete key s.chains;
        bus = (close lib.bus c (send_exit key s).bus).1;
      },
    )
  ]

  -- `h.ami.UpdateNodeLabels(name, labels)`
  unfoldable pub label : String → Dict String String → State → Outcome
  label name labels s = elim (lib.update_node_labels name labels) [
    | some e ↦ (some e, s)
    | none ↦ (none, record s { labelled = s.labelled ++ ((name, labels) ∷ []) })
  ]

  unfoldable pub node_label : String → Request → State → Outcome
  unfolding fail label publish_success_msg
  node_label key m s = elim (Dict.lookup "subName" m.metadata) [
    | none ↦ fail "failed to get sub node name" m s
    | some name ↦ elim (lib.as_labels m.content) [
      | failed e ↦ fail e m s
      | done labels ↦
          let (err, s') = label name labels s in
          elim err [ some e ↦ fail e m s' | none ↦ (none, publish_success_msg m s') ]
    ]
  ]

  -- The loop over the nodes: the errors so far, and the state.
  unfoldable pub label_all :
      List (String × Dict String String) → List String → State → List String × State
  unfolding label
  label_all [] errs s = (errs, s)
  label_all ((name, labels) ∷ rest) errs s =
      let (err, s') = label name labels s in
      label_all rest (elim err [ none ↦ errs | some e ↦ errs ++ (e ∷ []) ]) s'

  unfoldable pub join_lines : List String → String
  join_lines [] = ""
  join_lines (e ∷ []) = e
  join_lines (e ∷ f ∷ rest) = e <> "\n" <> join_lines (f ∷ rest)

  unfoldable pub label_multi_nodes : Range → String → Request → State → Outcome
  unfolding label_all fail publish_success_msg join_lines
  label_multi_nodes range key m s = elim (lib.as_node_labels m.content) [
    | failed e ↦ (some e, s)
    | done nodes ↦
        let (errs, s') = label_all (range.order (String × Dict String String) nodes) [] s in
        elim errs [
          | [] ↦ (none, publish_success_msg m s')
          | e ∷ rest ↦ fail (join_lines (e ∷ rest)) m s'
        ]
  ]

  -- `assembleUrl`
  unfoldable pub assemble_url : RpcRequest → String
  assemble_url req =
      if not (contains req.app "http://") && not (contains req.app "https://")
      then (if req.system
          then "http://" <> req.app <> ".baetyl-edge-system"
          else "http://" <> req.app <> ".baetyl-edge")
        <> req.params
      else req.app <> req.params

  unfoldable pub rpc : String → Request → State → Outcome
  unfolding fail assemble_url
  rpc key m s = elim (lib.as_request m.content) [
    | failed e ↦ fail e m s
    | done request ↦ elim (lib.rpc_app (assemble_url request) request) [
      | failed e ↦ fail e m s
      | done res ↦ (none, tell (success_reply cmd (lib.of_response res) m) s)
    ]
  ]

  unfoldable pub rpc_mqtt : String → Request → State → Outcome
  unfolding fail publish_success_msg
  rpc_mqtt key m s =
      let (err, bus') = publish lib.bus topic_event m s.bus in
      let s' : State = record s { bus = bus' } in
      elim err [ some e ↦ fail e m s' | none ↦ (none, publish_success_msg m s') ]

  unfoldable pub agent_control : String → Request → State → Outcome
  unfolding fail
  agent_control key m s = elim (lib.agent) [
    | none ↦ fail "failed to request for the not set agent" m s
    | some client ↦ elim (client (meta "action" m)) [
      | failed e ↦ fail e m s
      | done flag ↦ (
        none,
        tell
            (record {
              kind = cmd;
              metadata =
                  ("success", "true")
                  ∷ ("token", meta "token" m)
                  ∷ ("stat", if flag then "true" else "false")
                  ∷ [];
              content = lib.empty;
            })
            s,
      )
    ]
  ]

  unfoldable pub describe : String → Request → State → Outcome
  unfolding fail
  describe key m s =
      elim (lib.remote_describe (meta "resourceType" m) (meta "namespace" m) (meta "name" m)) [
        | failed e ↦ fail e m s
        | done res ↦ (none, tell (success_reply data_message (lib.of_bytes res) m) s)
      ]

  -- A message of a session is passed on to the topic of its key.
  unfoldable pub forward : String → Request → State → Outcome
  unfolding publish_failed_msg
  forward key m s =
      let (err, bus') = publish lib.bus (downside_of key) m s.bus in
      let s' : State = record s { bus = bus' } in
      if not (Dict.has key s.chains)
      then (
        some ("failed to get connected chain" <> key),
        publish_failed_msg "failed to get connected chain" m s,
      )
      else elim err [
        | some e ↦ (some e, publish_failed_msg "failed to publish downside chain" m s')
        | none ↦ (none, s')
      ]

  unfoldable pub run_command : Range → Command → String → Request → State → Outcome
  unfolding connect view_logs disconnect node_label label_multi_nodes rpc agent_control rpc_mqtt
      describe
  run_command range connect_cmd key m s = connect key m s
  run_command range logs_cmd key m s = view_logs key m s
  run_command range disconnect_cmd key m s = disconnect key m s
  run_command range label_cmd key m s = node_label key m s
  run_command range multi_label_cmd key m s = label_multi_nodes range key m s
  run_command range rpc_cmd key m s = rpc key m s
  run_command range agent_cmd key m s = agent_control key m s
  run_command range rpc_mqtt_cmd key m s = rpc_mqtt key m s
  run_command range describe_cmd key m s = describe key m s
  run_command range unknown_cmd key m s = (none, s)

  -- `OnMessage`. `is_core` says that the service is baetyl-core, `command` reads the command's name.
  unfoldable pub on_message : Range → Bool → (String → Command) → Request → State → Outcome
  unfolding run_command forward
  on_message range is_core command m s = if not is_core then (none, s) else elim (m.kind) [
    | cmd ↦ run_command range (command (meta "cmd" m)) (key_of m) m s
    | data_message ↦ forward (key_of m) m s
    | _ ↦ (none, s)
  ]

  unfoldable pub on_timeout : State → Outcome
  on_timeout s =
      let timeout : Request = record {
        kind = cmd;
        metadata = ("success", "false") ∷ ("msg", "engine timeout") ∷ [];
        content = lib.empty;
      } in
      let (err, bus') = publish lib.bus topic_upside timeout s.bus in (err, record s { bus = bus' })
