-- ===== src/Tests/Downside.antt =====
-- The commands of the cloud on a bus that takes all messages, with sessions that always start.
use baetyl.Base.{String, true, false, none, some, [], ◌∷◌, ◌≡◌, refl, arith, In, string_eq}
use baetyl.Base.Dict
use baetyl.Base.Range.{insertion_order}
use baetyl.Message.{done, failed, cmd, data_message, subscribe}
use baetyl.Chain.{Chain, link_options, parse_data, new_chain, disconnect_message}
use baetyl.Engine.Downside.{
  Lib, State, Request, Command, connect_cmd, disconnect_cmd, label_cmd, key_of, close_old,
  open_chain, connect, fail_as, on_message, run_command,
}
use baetyl.Engine.Downside.Laws.{Sessions, on_message-Sessions}
use baetyl.Engine.Downside.Replies.{Replied, run_command-Replied}
use baetyl.Engine.Downside.Sessions.{connected_receives, timeout_disconnects}

abbrev lib : Lib
lib = record {
  Content = String;
  Options = Unit;
  Response = String;
  empty = "";
  of_bytes = λ b. b;
  of_response = λ r. r;
  as_labels = λ c. failed "no labels";
  as_node_labels = λ c. done [];
  as_options = λ c. done tt;
  as_request = λ c. failed "no request";
  bus = record {
    publish_error = λ t m. none;
    subscribe_error = λ t. none;
    unsubscribe_error = λ t. none;
  };
  update_node_labels = λ n l. none;
  rpc_app = λ url r. done "ok";
  remote_describe = λ t ns n. done "pod";
  agent = none;
  plugin_error = none;
  native = false;
  start_error = λ c. none;
}

abbrev command_of : String → Command
command_of name = disconnect_cmd

abbrev ask : Request lib
ask = record {
  kind = cmd;
  metadata =
      ("namespace", "ns")
      ∷ ("name", "pod")
      ∷ ("container", "c")
      ∷ ("token", "t")
      ∷ ("cmd", "connect")
      ∷ [];
  content = "";
}

abbrev send : Request lib
send = record ask { kind = data_message; content = "ls" }

abbrev debug : Chain
debug = record {
  token = "t";
  downside = "ns_pod_c_t_down";
  options = record {
    namespace = "ns";
    name = "pod";
    container = "c";
    host = "";
    path = "";
    ip = "";
    port = "";
    username = "";
    password = "";
  };
  written = [];
  pipe_closed = false;
  cancelled = false;
}

abbrev idle : State lib
idle = record { chains = []; bus = record { published = []; subscribed = [] }; labelled = [] }

abbrev busy : State lib
busy = record {
  chains = ("ns_pod_c_t", debug) ∷ [];
  bus = record { published = []; subscribed = "ns_pod_c_t_down" ∷ [] };
  labelled = [];
}

idle-Sessions : Sessions lib idle
unfolding Dict.lookup
idle-Sessions key c h = ground arith

on_message-Sessions_example :
    Sessions lib (on_message lib insertion_order true command_of ask idle).1
on_message-Sessions_example =
    on_message-Sessions lib insertion_order true command_of ask idle idle-Sessions

connected_receives_example :
    (c : Chain) × (Dict.lookup (key_of lib ask) busy.chains ≡ some c)
    × In c.downside busy.bus.subscribed
    × (on_message lib insertion_order true command_of send busy
        ≡ (none, record busy { bus = record busy.bus { published = ((c.downside, send) ∷ []) } }))
unfolding connect close_old open_chain fail_as new_chain parse_data link_options subscribe key_of
    Dict.lookup Dict.insert string_eq
connected_receives_example =
    connected_receives lib insertion_order command_of ask send idle busy refl refl refl refl

run_command-Replied_example :
    Replied lib false ask [] (run_command lib insertion_order label_cmd "key" ask idle)
run_command-Replied_example =
    run_command-Replied lib insertion_order label_cmd "key" ask idle refl (λ topic m. refl)

busy-Sessions : Sessions lib busy
unfolding on_message run_command connect close_old open_chain fail_as new_chain parse_data
    link_options subscribe key_of Dict.lookup Dict.insert string_eq
busy-Sessions =
    on_message-Sessions lib insertion_order true (λ name. connect_cmd) ask idle idle-Sessions

timeout_disconnects_example :
    let after =
      on_message lib insertion_order true command_of
        (disconnect_message lib.bus lib.empty debug)
        busy in
    (after.0 ≡ none) × (Dict.lookup "ns_pod_c_t" after.1.chains ≡ none)
unfolding Dict.lookup string_eq
timeout_disconnects_example =
    timeout_disconnects lib insertion_order command_of busy "ns_pod_c_t" debug refl busy-Sessions
      refl
