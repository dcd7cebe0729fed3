-- ===== src/Chain.antt =====
-- chain: a session that debugs a process remotely, or views its logs.
pub mod Laws
use mathlib.Core.Option
use baetyl.Base.{
  String, ◌<>◌, Bool, true, false, not, ◌&&◌, Option, none, some, List, [], ◌∷◌, ◌++◌, ◌==◌,
  string_eq, if◌then◌else◌,
}
use baetyl.Base.Dict
use baetyl.Base.Dict.{Dict}
use baetyl.Message.{
  Try, done, failed, MessageKind, cmd, data_message, Message, Bus, BusLib, publish, subscribe,
  unsubscribe, topic_upside, topic_downside,
}

-- `ami.DebugOptions`
pub record DebugOptions : Type 0 where
  pub namespace : String
  pub name : String
  pub container : String
  pub host : String
  pub path : String
  pub ip : String
  pub port : String
  pub username : String
  pub password : String

-- `chain`. The pipe to the process is what was written to it, and whether it is closed.
pub record Chain : Type 0 where
  pub token : String
  pub downside : String
  pub options : DebugOptions
  pub written : List String
  pub pipe_closed : Bool
  pub cancelled : Bool

abbrev pub exit_cmd : String
exit_cmd = "exit\n"

abbrev pub err_parse_data : String
err_parse_data = "failed to parse data"

-- `v, ok := data[k]; if !ok { return nil, ErrParseData }`
abbrev pub need : {A : Type 0} → Dict String String → String → (String → Try A) → Try A
need fields k f = elim (Dict.lookup k fields) [ none ↦ failed err_parse_data | some v ↦ f v ]

abbrev pub kube_options : String → String → String → DebugOptions
kube_options namespace name container = record {
  namespace = namespace;
  name = name;
  container = container;
  host = "";
  path = "";
  ip = "";
  port = "";
  username = "";
  password = "";
}

-- A link over a websocket, over ssh, or by Kubernetes alone.
unfoldable pub link_options : Bool → Dict String String → DebugOptions → Try DebugOptions
link_options ssh fields opt = elim (Dict.lookup "host" fields) [
  | some address ↦ need fields "path" (λ path. done (record opt { host = address; path = path }))
  | none ↦
      if ssh
      then need fields "port" (λ port. need fields "userName" (λ user.
        need fields "password" (λ password.
          done
            (record opt { ip = "127.0.0.1"; port = port; username = user; password = password }))))
      else done opt
]

abbrev pub topic_of : String → String → String → String → String
topic_of namespace name container token =
    namespace <> "_" <> name <> "_" <> container <> "_" <> token <> "_" <> "down"

-- `NewChain` up to the subscription.
unfoldable pub parse_data : Bool → Dict String String → Try Chain
unfolding link_options
parse_data ssh fields = need fields "token" (λ token. need fields "name" (λ name.
    need fields "namespace" (λ namespace.
      let container : String = elim (Dict.lookup "container" fields) [ none ↦ "" | some c ↦ c ] in
      elim (link_options ssh fields (kube_options namespace name container)) [
        | failed e ↦ failed e
        | done opt ↦ done (record {
          token = token;
          downside = topic_of namespace name container token;
          options = opt;
          written = [];
          pipe_closed = false;
          cancelled = false;
        })
      ])))

module _ {C : Type 0} (lib : BusLib C) where
  -- `native` is the run mode. The error of the plugin comes before all others.
  unfoldable pub new_chain :
      Option String → Bool → Bool → Dict String String → Bus C → Try Chain × Bus C
  unfolding parse_data
  new_chain (some e) native need_native fields bus = (failed e, bus)
  new_chain none native need_native fields bus = elim (parse_data (native && need_native) fields) [
    | failed e ↦ (failed e, bus)
    | done c ↦
        let (err, bus') = subscribe lib c.downside bus in
        elim err [ some e ↦ (failed e, bus') | none ↦ (done c, bus') ]
  ]

  -- `Close` has no error of its own: each that it meets is logged.
  unfoldable pub close : Chain → Bus C → Chain × Bus C
  close c bus =
      (record c { pipe_closed = true; cancelled = true }, (unsubscribe lib c.downside bus).1)

  -- A write to the pipe fails once it is closed.
  unfoldable pub write : String → Chain → Option String × Chain
  write text c =
      if c.pipe_closed
      then (some "io: read/write on closed pipe", c)
      else (none, record c { written = c.written ++ (text ∷ []) })

  unfoldable pub cancel : Chain → Chain
  unfolding write
  cancel c =
      if not (c.options.host == "") then record c { cancelled = true } else (write exit_cmd c).1

  abbrev pub reply : C → MessageKind → String → Chain → Message C
  reply empty kind text c = record {
    kind = kind;
    metadata = ("success", "false") ∷ ("msg", text) ∷ ("token", c.token) ∷ [];
    content = empty;
  }

  -- `chainHandler.OnMessage`. `as_bytes` reads the content of a message.
  unfoldable pub on_message :
      C → (C → Try String) → Message C → Chain → Bus C → Option String × (Chain × Bus C)
  unfolding cancel write
  on_message empty as_bytes m c bus = elim (m.kind) [
    | data_message ↦ elim (as_bytes m.content) [
      | failed e ↦ (
        some e,
        (
          c,
          (publish lib topic_upside (reply empty data_message "failed to unmarshal data message" c)
              bus).1,
        ),
      )
      | done text ↦
          if text == exit_cmd
          then (none, (cancel c, bus))
          else let (err, c') = write text c in
            elim err [
              | none ↦ (none, (c', bus))
              | some e ↦ (
                some e,
                (
                  c',
                  (publish lib topic_upside
                      (reply empty data_message "failed to write debug command" c) bus).1,
                ),
              )
            ]
    ]
    | _ ↦ (none, (c, bus))
  ]

  -- The message that asks the engine to end the session.
  abbrev pub disconnect_message : C → Chain → Message C
  disconnect_message empty c = record {
    kind = cmd;
    metadata =
        ("namespace", c.options.namespace)
        ∷ ("name", c.options.name)
        ∷ ("container", c.options.container)
        ∷ ("token", c.token)
        ∷ ("cmd", "disconnect")
        ∷ [];
    content = empty;
  }

  unfoldable pub on_timeout : C → Chain → Bus C → Option String × Bus C
  on_timeout empty c bus =
      publish lib topic_downside (disconnect_message empty c)
        (publish lib topic_upside (reply empty data_message "chain timeout" c) bus).1

  -- `connecting`, with the error of the remote session: the session is closed, and the cloud is told at the end.
  unfoldable pub connecting : C → Option String → Chain → Bus C → Option String × (Chain × Bus C)
  unfolding close
  connecting empty result c bus = elim result [
    | none ↦ (none, (c, (publish lib topic_upside (reply empty cmd "disconnect" c) bus).1))
    | some e ↦
        let (c', bus') = close c bus in
        (some e, (c', (publish lib topic_upside (reply empty cmd "disconnect" c) bus').1))
  ]
