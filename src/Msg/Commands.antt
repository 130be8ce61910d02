-- ===== src/Msg/Commands.antt =====
-- The commands of servercomm through the codec of msg/codec.go, from end to end.
use micserver.Prelude.{
  ℕ, ◌+◌, ◌^◌, ◌≤◌, ◌<◌, ◌≡◌, refl, sym, ap, ◌∙◌, Option, none, some, List, [], ◌∷◌, ◌++◌, length,
  arith, take, drop, le→ltb, lt→leb, length-take, length-drop, All,
}
use mathlib.Core.Path.{subst}
use micserver.Wire.Bytes.{Bytes}
use micserver.Wire.Run.{run_writer}
use micserver.Wire.Commands.{Command, get_msg_id, get_size, write_binary, read_binary, blank}
use micserver.Wire.Commands.RoundTrip.{IsCommand, command-Survives}
use micserver.Msg.Binary.{MessageBinary, Pooled, message_max_size, get_message_binary, proto_bytes}
use micserver.Msg.Supply.{IsPooled, get_message_binary-fits}
use micserver.Msg.Encode.{default_encode_obj, write_obj, finish}
use micserver.Msg.Given.{filled}
use micserver.Msg.Decode.{State, range_msg_binary}
use micserver.Msg.Frames.{frames, FitsFrame}
use micserver.Msg.Stream.{IsPartial, Unread, Delivered, range_msg_binary-Delivered}
use micserver.Msg.Sent.{IsSent, headed, finish-headed, headed-IsSent}

-- A command that the codec can carry: its parts fit, and so does the whole.
pub record IsSendable (c : Command) : Type 0 where
  pub command : IsCommand c
  pub fits : 6 + get_size c < message_max_size

write_obj_lem :
    (c : Command) (bs : Bytes) (n : ℕ) (m : MessageBinary)
    → 6 + get_size c ≤ length m.buffer
    → run_writer (write_binary c) (drop 6 (take (6 + get_size c) m.buffer)) ≡ some (bs, n)
    → length bs ≡ get_size c
    → write_obj c (6 + get_size c) m ≡ some (filled bs m)
unfolding write_obj
write_obj_lem c bs n m fits e l =
    simp (write_obj, le→ltb (length m.buffer) (6 + get_size c) fits, e)
      (ap (λ k. some (record m { buffer = take 6 m.buffer ++ (bs ++ drop (6 + k) m.buffer) }))
        (sym l))

-- DefaultEncodeObj, for a command that the codec can carry, and pools with objects of the right
-- size: it does not panic and is not refused, and gives a message that carries the command's id and
-- has its frame at the front of its buffer; the content is as long as GetSize says, and ReadBinary
-- on it gives the command back.
pub default_encode_obj-IsSent :
    (pooled : Pooled) (c : Command) (spare : ℕ)
    → IsPooled pooled
    → IsSendable c
    → (m : MessageBinary) × (bs : Bytes) × (default_encode_obj pooled c ≡ some (some m))
      × IsSent (get_msg_id c) bs m
      × (read_binary (blank c) bs spare ≡ some (get_size c, c))
      × (length bs ≡ get_size c)
unfolding default_encode_obj
default_encode_obj-IsSent pooled c spare good h =
    let size = get_size c in
    let (m, e, fits) = get_message_binary-fits pooled (6 + size) good (omega (arith, h.fits)) in
    let room = drop 6 (take (6 + size) m.buffer) in
    let lr : length room ≡ size = rw (length-drop, length-take) (omega (arith, fits)) in
    let (bs, n, w, r, l) = command-Survives c room spare h.command lr in
    (
      headed (get_msg_id c) bs m,
      bs,
      encoded m bs e (write_obj_lem c bs n m fits w l) l (omega (arith, fits, l)),
      headed-IsSent (get_msg_id c) bs m,
      r,
      l,
    )
  where
    encoded :
        (m : MessageBinary) (bs : Bytes)
        → get_message_binary pooled (6 + get_size c) ≡ some m
        → write_obj c (6 + get_size c) m ≡ some (filled bs m)
        → length bs ≡ get_size c
        → 6 + length bs ≤ length m.buffer
        → default_encode_obj pooled c ≡ some (some (headed (get_msg_id c) bs m))
    encoded m bs e w l k =
        simp (default_encode_obj, lt→leb (6 + get_size c) message_max_size h.fits, e, w)
          (ap (λ n. finish (get_msg_id c) n (6 + n) (filled bs m)) (sym l)
            ∙ finish-headed (get_msg_id c) bs m k)

-- The bytes of the commands as joinMsgByFunc of network/tcpconn/tcp_conn.go lines them up: of each
-- message its buffer up to its total length.
unfoldable pub sent_bytes : Pooled → List Command → Option Bytes
sent_bytes pooled [] = some []
sent_bytes pooled (c ∷ cs) = elim (default_encode_obj pooled c) [
  | none ↦ none
  | some none ↦ none
  | some (some m) ↦ elim (sent_bytes pooled cs) [
    | none ↦ none
    | some bs ↦ some (take m.total_length m.buffer ++ bs)
  ]
]

-- The content is that of the command.
abbrev IsContent : ℕ → Command → ℕ × Bytes → Type 0
IsContent spare c (id, bs) =
    (id ≡ get_msg_id c) × (read_binary (blank c) bs spare ≡ some (get_size c, c))

abbrev Contents : ℕ → List Command → List (ℕ × Bytes) → Type 0
Contents spare [] [] = Unit
Contents spare [] (m ∷ ms) = ⊥
Contents spare (c ∷ cs) [] = ⊥
Contents spare (c ∷ cs) (m ∷ ms) = IsContent spare c m × Contents spare cs ms

get_msg_id-fits : (c : Command) → get_msg_id c < 2 ^ 16
unfolding get_msg_id
get_msg_id-fits c = elim c as (λ k. get_msg_id k < 2 ^ 16) [
  | Command.module_info o ↦ omega arith
  | Command.s_time_tick o ↦ omega arith
  | Command.s_test o ↦ omega arith
  | Command.s_login o ↦ omega arith
  | Command.s_logout o ↦ omega arith
  | Command.s_sever_start_ok o ↦ omega arith
  | Command.s_login_ret o ↦ omega arith
  | Command.s_start_rely_notify o ↦ omega arith
  | Command.s_start_my_notify o ↦ omega arith
  | Command.s_notify_all_info o ↦ omega arith
  | Command.s_notify_safely_quit o ↦ omega arith
  | Command.s_update_session o ↦ omega arith
  | Command.s_req_close_connect o ↦ omega arith
  | Command.s_forward_to_module o ↦ omega arith
  | Command.module_message o ↦ omega arith
  | Command.s_forward_to_client o ↦ omega arith
  | Command.s_forward_from_gate o ↦ omega arith
  | Command.client_message o ↦ omega arith
  | Command.s_roc_request o ↦ omega arith
  | Command.s_roc_response o ↦ omega arith
  | Command.s_roc_bind o ↦ omega arith
]

sent_frames :
    (pooled : Pooled) (spare : ℕ) (cs : List Command)
    → IsPooled pooled
    → All IsSendable cs
    → (ms : List (ℕ × Bytes)) × (sent_bytes pooled cs ≡ some (frames ms))
      × All FitsFrame ms
      × Contents spare cs ms
unfolding sent_bytes
sent_frames pooled spare [] good h = ([], refl, tt, tt)
sent_frames pooled spare (c ∷ cs) good (h, hs) =
    let (m, bs, e, sent, r, l) = default_encode_obj-IsSent pooled c spare good h in
    let (ms, es, fs, cts) = sent_frames pooled spare cs good hs in
    (
      (get_msg_id c, bs) ∷ ms,
      rw (sent_bytes, e, es) (ap (λ t. some (t ++ frames ms)) sent.on_wire),
      ((get_msg_id-fits c, omega (arith, l, h.fits)), fs),
      ((refl, r), cts),
    )

-- The messages that arrive are of the commands, in their order: of their ids, and ReadBinary on
-- their contents gives them back.
abbrev pub Arrived : ℕ → List Command → List MessageBinary → Type 0
Arrived spare [] [] = Unit
Arrived spare [] (m ∷ ms) = ⊥
Arrived spare (c ∷ cs) [] = ⊥
Arrived spare (c ∷ cs) (m ∷ ms) =
    ((m.msg_id ≡ get_msg_id c)
      × (read_binary (blank c) (proto_bytes m) spare ≡ some (get_size c, c)))
    × Arrived spare cs ms

arrive :
    (spare : ℕ) (cs : List Command) (ms : List (ℕ × Bytes)) (out : List MessageBinary)
    → Contents spare cs ms
    → Delivered ms out
    → Arrived spare cs out
arrive spare [] [] [] c d = tt
arrive spare [] [] (m ∷ out) c d = absurd d
arrive spare [] (m ∷ ms) out c d = absurd c
arrive spare (c₁ ∷ cs) [] out c d = absurd c
arrive spare (c₁ ∷ cs) (m ∷ ms) [] c d = absurd d
arrive spare (c₁ ∷ cs) ((id, bs) ∷ ms) (m' ∷ out) ((i, r), c) (k, d) = (
  (k.same_id ∙ i, ap (λ t. read_binary (blank c₁) t spare) k.same_bytes ∙ r),
  arrive spare cs ms out c d,
)

-- Commands that the codec can carry, sent one after the other by DefaultEncodeObj with pools of
-- objects of the right size, arrive: if their bytes, and the beginning of another message or
-- nothing, are still to come of a receiver's stream, then RangeMsgBinary ends without an error, it
-- hands on one message for each command, in their order, of the command's id and with a content
-- that ReadBinary turns into the command, and that beginning is what is still to come.
pub commands_arrive :
    (sender : Pooled) (receiver : ℕ → Pooled) (spare : ℕ) (cs : List Command) (wire p : Bytes)
    (s : State)
    → IsPooled sender
    → ((i : ℕ) → IsPooled (receiver i))
    → All IsSendable cs
    → sent_bytes sender cs ≡ some wire
    → IsPartial p
    → Unread (wire ++ p) s
    → (s' : State) × (out : List MessageBinary) × (range_msg_binary receiver s ≡ some (s', none))
      × Unread p s'
      × (s'.given ≡ s.given ++ out)
      × Arrived spare cs out
commands_arrive sender receiver spare cs wire p s hs hr h e part u =
    let (ms, f, fits, c) = sent_frames sender spare cs hs h in
    let same : wire ≡ frames ms = ap (λ o. elim o [ none ↦ [] | some t ↦ t ]) (sym e ∙ f) in
    let (s', out, r, u', g, d) =
      range_msg_binary-Delivered receiver ms p s hr fits part
        (subst (λ t. Unread (t ++ p) s) same u) in
    (s', out, r, u', g, arrive spare cs ms out c d)
