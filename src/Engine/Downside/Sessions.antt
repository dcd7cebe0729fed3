-- ===== src/Engine/Downside/Sessions.antt =====
-- A session from its start to its end: what is sent to it, how it times out, and what a failed start leaves.
use baetyl.Base.{
  String, Bool, true, Option, none, some, [], ◌∷◌, ◌++◌, ◌≡◌, inl, inr, refl, sym, ap, ◌∙◌, subst,
  arith, In, Option-cases, string_eq,
}
use baetyl.Base.Dict
use baetyl.Base.Dict.{Dict, lookup-insert, lookup-delete, has-lookup, has-insert}
use baetyl.Base.Range.{Range}
use baetyl.Message.{done, data_message, meta, Bus, publish, subscribe}
use baetyl.Chain.{Chain, new_chain, disconnect_message}
use baetyl.Message.Laws.{Try-cases}
use baetyl.Chain.Laws.{new_chain-IsOf}
use baetyl.Engine.Downside.{
  Lib, State, Request, Command, disconnect_cmd, key_of, downside_of, fail_as, close_old, open_chain,
  connect, disconnect, send_exit, forward, run_command, on_message,
}
use baetyl.Engine.Downside.Laws.{named, Sessions, IsOf-Session, made}

module _ (lib : Lib) where
  key_of-disconnect_message :
      (c : Chain) → key_of lib (disconnect_message lib.bus lib.empty c) ≡ named c
  unfolding key_of Dict.lookup string_eq
  key_of-disconnect_message c = refl

  command-disconnect_message :
      (c : Chain) → meta "cmd" (disconnect_message lib.bus lib.empty c) ≡ "disconnect"
  unfolding Dict.lookup string_eq
  command-disconnect_message c = refl

  disconnect-removes :
      (key : String) (m : Request lib) (s : State lib)
      → ((disconnect lib key m s).0 ≡ none)
        × (Dict.lookup key (disconnect lib key m s).1.chains ≡ none)
  unfolding disconnect send_exit
  disconnect-removes key m s = (ground arith, ground (arith, lookup-delete key key s.chains))

  -- If each session stands under its key, the message that a session sends when it times out
  -- ends the session without an error.
  pub timeout_disconnects :
      (range : Range) (command : String → Command) (s : State lib) (key : String) (c : Chain)
      → command "disconnect" ≡ disconnect_cmd
      → Sessions lib s
      → Dict.lookup key s.chains ≡ some c
      → let after = on_message lib range true command (disconnect_message lib.bus lib.empty c) s in
        (after.0 ≡ none) × (Dict.lookup key after.1.chains ≡ none)
  unfolding on_message run_command
  timeout_disconnects range command s key c named_so h found =
      let m = disconnect_message lib.bus lib.empty c in
      let same = key_of-disconnect_message c ∙ (h key c found).under in
      let ran = ap command (command-disconnect_message c) ∙ named_so in
      let (a, b) = disconnect-removes key m s in rw (ran, same) (a, b)

  new_chain-subscribes :
      (plugin : Option String) (native need_native : Bool) (fields : Dict String String)
      (bus bus' : Bus (lib.Content)) (c : Chain)
      → new_chain lib.bus plugin native need_native fields bus ≡ (done c, bus')
      → bus'.subscribed ≡ c.downside ∷ bus.subscribed
  unfolding new_chain subscribe
  new_chain-subscribes (some e) native need_native fields bus bus' c h = ground arith
  new_chain-subscribes none native need_native fields bus bus' c h = ground arith

  open_chain-opens :
      (need_native : Bool) (key : String) (m : Request lib) (s s' : State lib)
      → open_chain lib need_native key m s ≡ (none, s')
      → (c : Chain) × (made lib need_native m s ≡ (done c, s'.bus))
        × (Dict.lookup key s'.chains ≡ some c)
  unfolding open_chain fail_as
  open_chain-opens need_native key m s s' h = elim (Try-cases (made lib need_native m s).0) [
    | inl (e, p) ↦ ground arith
    | inr (c, p) ↦ elim (Option-cases (lib.start_error c)) [
      | inr (why, q) ↦ ground arith
      | inl q ↦ (c, ground arith, ground (arith, lookup-insert key key c s.chains))
    ]
  ]

  forward-publishes :
      (key : String) (d : Request lib) (s : State lib) (c : Chain)
      → Dict.lookup key s.chains ≡ some c
      → lib.bus.publish_error (downside_of lib key) d ≡ none
      → forward lib key d s ≡ (
        none,
        record s {
          bus = record s.bus { published = s.bus.published ++ ((downside_of lib key, d) ∷ []) };
        },
      )
  unfolding forward publish
  forward-publishes key d s c found ok = ground (arith, has-lookup key s.chains)

  on_message-forward :
      (range : Range) (command : String → Command) (d : Request lib) (s : State lib)
      → d.kind ≡ data_message
      → on_message lib range true command d s ≡ forward lib (key_of lib d) d s
  unfolding on_message
  on_message-forward range command d s h = ground arith

  -- After a debug session was opened with no error, its topic is subscribed to, and a data
  -- message with the same key, when the bus takes it, is published on that topic and nothing
  -- else changes.
  pub connected_receives :
      (range : Range) (command : String → Command) (m d : Request lib) (s s' : State lib)
      → connect lib (key_of lib m) m s ≡ (none, s')
      → key_of lib d ≡ key_of lib m
      → d.kind ≡ data_message
      → lib.bus.publish_error (downside_of lib (key_of lib m)) d ≡ none
      → (c : Chain) × (Dict.lookup (key_of lib m) s'.chains ≡ some c)
        × In c.downside s'.bus.subscribed
        × (on_message lib range true command d s' ≡ (
          none,
          record s' {
            bus = record s'.bus { published = s'.bus.published ++ ((c.downside, d) ∷ []) };
          },
        ))
  unfolding connect
  connected_receives range command m d s s' h same kind ok =
      let (c, new, found) =
        open_chain-opens true (key_of lib m) m (close_old lib (key_of lib m) s) s' h in
      let session =
        IsOf-Session lib m c
          (new_chain-IsOf lib.bus lib.plugin_error lib.native true m.metadata _ s'.bus c new) in
      let passed =
        on_message-forward range command d s' kind
        ∙ ap (λ k. forward lib k d s') same
        ∙ forward-publishes (key_of lib m) d s' c found ok in
      (
        c,
        found,
        subst (λ l. In c.downside l)
            (sym (new_chain-subscribes lib.plugin_error lib.native true m.metadata _ s'.bus c new))
            (inl refl),
        rw (session.listens) passed,
      )
