-- ===== src/Attach/Sends/Underway.antt =====
-- src/attach.rs: an open client keeps what it sends in step with what it queued.
use afk_cli.Prelude.{
  ℕ, ◌-◌, ◌≤◌, ◌≡◌, refl, ap, sym, ◌∙◌, List, [], ◌∷◌, ◌++◌, append_assoc, append-nil, ltb, length,
  length-append, All, All-append, arith, Bool-cases, inl, inr, ok,
}
use afk_cli.Limits.{max_attachment_queue_bytes}
use afk_cli.Ipc.{Record, attach, input, output, resize, stop, exit, encode}
use afk_cli.Ipc.Codec.{encode-eq-wire, IsDimension, wire}
use afk_cli.Ipc.Framing.{wires}
use afk_cli.ByteQueue.{ByteQueue, WriteOutcome, flush}
use afk_cli.ByteQueue
use afk_cli.ByteQueue.Order.{flush-IsParted}
use afk_cli.Attach.{Client, push_encoded}
use afk_cli.Attach.Loop.{flush_socket}
use afk_cli.Attach.Frame.{Steady}
use afk_cli.Attach.Frame.Rounds.{Aloof}

wires-append : (rs qs : List Record) → wires (rs ++ qs) ≡ wires rs ++ wires qs
wires-append [] qs = refl
wires-append (r ∷ rs) qs =
    ap (λ l. wire r ++ l) (wires-append rs qs) ∙ sym (append_assoc (wire r) (wires rs) (wires qs))

-- A session is opened first; input and sizes follow.
abbrev pub Follows : Record → Type 0
Follows (input bytes) = Unit {0}
Follows (resize rows columns) = IsDimension rows × IsDimension columns
Follows _ = ⊥

abbrev pub IsConversation : List Record → Type 0
IsConversation [] = Unit {0}
IsConversation (attach rows columns ∷ rest) =
    IsDimension rows × IsDimension columns × All Follows rest
IsConversation (_ ∷ rest) = ⊥

abbrev pub IsOpen : List Record → Type 0
IsOpen [] = ⊥
IsOpen (r ∷ rest) = IsConversation (r ∷ rest)

-- A client that has queued its first record.
pub record Talks (queue : ByteQueue) (queued : List Record) (sent : List ℕ) : Type 0 where
  pub in_order : sent ++ queue.bytes ≡ wires queued
  pub bounded : length queue.bytes ≤ max_attachment_queue_bytes
  pub same_limit : queue.limit ≡ max_attachment_queue_bytes
  pub open_first : IsOpen queued

abbrev pub Talking : Client → Type 0
Talking s = Talks s.socket_output s.queued s.sent

conversation-append :
    (rs : List Record) (r : Record) → IsOpen rs → Follows r → IsOpen (rs ++ r ∷ [])
conversation-append [] r o f = absurd o
conversation-append (attach rows columns ∷ rest) r o f =
    (o.0, o.1, All-append Follows rest (r ∷ []) o.2 (f, tt))
conversation-append (input b ∷ rest) r o f = absurd o
conversation-append (output b ∷ rest) r o f = absurd o
conversation-append (resize rows columns ∷ rest) r o f = absurd o
conversation-append (stop ∷ rest) r o f = absurd o
conversation-append (exit e ∷ rest) r o f = absurd o

-- A push that fits.
pub pushed-in_order :
    (sent bytes encoded : List ℕ) (queued : List Record) (r : Record)
    → sent ++ bytes ≡ wires queued
    → encode r ≡ ok encoded
    → sent ++ (bytes ++ encoded) ≡ wires (queued ++ r ∷ [])
pushed-in_order sent bytes encoded queued r h e =
    sym (append_assoc sent bytes encoded)
    ∙ ap (λ l. l ++ encoded) h
    ∙ ap (λ l. wires queued ++ l) (encode-eq-wire r encoded e ∙ sym (append-nil (wire r)))
    ∙ sym (wires-append queued (r ∷ []))

push-Talking :
    (r : Record) (encoded : List ℕ) (s : Client)
    → Follows r
    → encode r ≡ ok encoded
    → Talking s
    → Talking (push_encoded r encoded s).1
unfolding push_encoded ByteQueue.push
push-Talking r encoded s f e h =
    elim (Bool-cases
      (ltb (s.socket_output.limit - length s.socket_output.bytes) (length encoded))) [
        | inl full ↦ rw full (record {
          in_order = h.in_order;
          bounded = h.bounded;
          same_limit = h.same_limit;
          open_first = h.open_first;
        })
        | inr room ↦ rw room (record {
          in_order = pushed-in_order s.sent s.socket_output.bytes encoded s.queued r h.in_order e;
          bounded =
              ground (arith, length-append s.socket_output.bytes encoded, h.bounded, h.same_limit);
          same_limit = h.same_limit;
          open_first = conversation-append s.queued r h.open_first f;
        })
      ]

flush-Talking :
    (writes : List WriteOutcome) (s : Client) → Talking s → Talking (flush_socket writes s).1
unfolding flush_socket
flush-Talking writes s h =
    let p = flush-IsParted s.socket_output writes in
    record {
      in_order = append_assoc s.sent _ _ ∙ ap (λ l. s.sent ++ l) p.parted ∙ h.in_order;
      bounded = omega (
        arith,
        h.bounded,
        ap length p.parted,
        length-append (flush s.socket_output writes).sent
            (flush s.socket_output writes).queue.bytes,
      );
      same_limit = p.same_limit ∙ h.same_limit;
      open_first = h.open_first;
    }

pub Talking-Steady : Steady Talking Follows
Talking-Steady = record {
  traces = λ s t h. h;
  closes = λ s b h. h;
  pushes = push-Talking;
  flushes = flush-Talking;
  inputs = λ bytes. tt;
  sizes = λ rows columns h k. (h, k);
}

pub Talking-Aloof : Aloof Talking
Talking-Aloof = record {
  decodes = λ s d bytes h. h;
  shows = λ s bytes h. h;
  flushes = λ s bytes h. h;
}
