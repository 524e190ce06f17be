-- ===== src/Attach/Sends.antt =====
-- src/attach.rs: what the client sends to the runner.
mod Underway
mod Opening
use afk_cli.Prelude.{
  ℕ, ◌-◌, ◌≤◌, ◌≡◌, refl, ap, sym, ◌∙◌, List, [], ◌∷◌, ◌++◌, append_assoc, append-nil, Bool, true,
  false, ltb, if◌then◌else◌, length, length-append, All, All-append, arith, Bool-cases, inl, inr,
  ok, err, IoResult, Result-cases, ◌⊎◌, io_error, would_block,
}
use afk_cli.Limits.{max_attachment_queue_bytes}
use afk_cli.Ipc.{Record, attach, input, output, resize, stop, exit, code, signal, encode}
use afk_cli.Ipc.Codec.{IsDimension, wire}
use afk_cli.Ipc.Framing.{wires}
use afk_cli.Terminal.{window_size}
use afk_cli.Session.Cautious.{window_size-IsSize, IsSize}
use afk_cli.ByteQueue.{ByteQueue, WriteOutcome, flush}
use afk_cli.ByteQueue
use afk_cli.ByteQueue.Order.{flush-IsParted}
use afk_cli.Prelude.Exec.{◌>>=◌, lift, pure, fail}
use afk_cli.Prelude.Ensures.{
  Ensures, Outcome, Keeps-after, Ensures-bind, Ensures-lift, Ensures-pure, Ensures-fact,
  Ensures-map, Ensures-fail,
}
use afk_cli.Attach.{
  Client, new_client, push_encoded, queue_encoded, Turn, Surroundings, queue_record,
}
use afk_cli.Attach.Loop.{flush_socket, run_rounds, dimensions, attach_live, Preparation}
use afk_cli.Attach.Frame.{Steady, queue_record-Keeps}
use afk_cli.Attach.Frame.Rounds.{Aloof, run_rounds-Keeps}
use afk_cli.Attach.Sends.Underway.{
  IsOpen, Talks, Talking, pushed-in_order, Talking-Steady, Talking-Aloof, Follows, IsConversation,
}
use afk_cli.Attach.Sends.Opening.{Silent, Fresh, Started, attach_live-Started}

-- What is sent and what is queued are the records that were queued, in order.
pub record IsSending (s : Client) : Type 0 where
  pub in_order : s.sent ++ s.socket_output.bytes ≡ wires s.queued
  pub bounded : length s.socket_output.bytes ≤ max_attachment_queue_bytes
  pub same_limit : s.socket_output.limit ≡ max_attachment_queue_bytes
  pub conversation : IsConversation s.queued

open-IsConversation : (rs : List Record) → IsOpen rs → IsConversation rs
open-IsConversation [] h = tt
open-IsConversation (r ∷ rs) h = h

Started-IsSending : (s : Client) → Started s → IsSending s
Started-IsSending s (inl h) = record {
  in_order = h.in_order;
  bounded = h.bounded;
  same_limit = h.same_limit;
  conversation = open-IsConversation s.queued h.open_first;
}
Started-IsSending s (inr h) = record {
  in_order = rw (h.no_sent, h.no_bytes, h.no_records) refl;
  bounded = rw h.no_bytes (omega arith);
  same_limit = rw h.no_bytes refl;
  conversation = rw h.no_records tt;
}

-- Whatever happens to a client, the bytes that it has sent, and then those that it still holds, are the
-- encodings of the records that it queued, in order: first the attachment, of a size from 1 to 4096
-- in both directions, and then input and such sizes; and it holds no more than the limit.
pub attach_live-IsSending :
    (tracing : Bool) (prepared : Preparation) (size : IoResult (ℕ × ℕ)) (ws : List Surroundings)
    → IsSending (attach_live prepared size ws (new_client tracing)).1
attach_live-IsSending tracing prepared size ws = told _ _ (
    (attach_live-Started prepared size ws).at (new_client tracing)
      (record { no_bytes = refl; no_records = refl; no_sent = refl }))
  where
    told :
        (r : IoResult Turn) (s : Client) → Outcome (λ _. Started) (λ _. Started) r s → IsSending s
    told (ok turn) s h = Started-IsSending s h
    told (err e) s h = Started-IsSending s h
