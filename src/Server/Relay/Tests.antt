-- ===== src/Server/Relay/Tests.antt =====
-- A response of two chunks.
use muxbridge.Base.{
  none, ◌+◌, ◌≤◌, ◌⊎◌, ◌≡◌, refl, Bool, true, false, some, List, Bytes, [], ◌∷◌, codes, same,
  bytes_eq,
}
use muxbridge.Headers.{copy, from_proto}
use muxbridge.Wire.{ResponseStart}
use muxbridge.Server.Response.{ResponseState, new_response_state, finish, send_or_done}
use muxbridge.Server.Exchange.{receive_frame}
use muxbridge.Server.Relay.Termination.{
  cases_left, IsReturned, Takes, takes_none, takes_one, handler_returns,
}
use muxbridge.Server.Relay.{
  Relay, pick_body, stream_body, after_chunk, Writer, awaiting, streaming, returned, complete,
  pick_start, pick_done, Exchange, Reach, stay, next, receives, picks, relay_step, deliver, drain,
  settle, write_chunk, write, write_header, start_response, await_start,
}
use muxbridge.Server.Relay.Frames.{fresh_writer}
use muxbridge.Server.Relay.Delivery.{forwarded, complete_response, complete_reachable}

abbrev created : ResponseStart
created = record { request_id = 7; status_code = 201; headers = [] }

abbrev two_chunks : List Bytes
two_chunks = codes "he" ∷ codes "llo" ∷ []

-- The browser's connection with a status, and then with the body too.
abbrev opened : Writer
unfolding start_response write_header
opened = start_response created (fresh_writer [])

abbrev pub greeted : Writer
unfolding start_response write_header
greeted = record opened { body = codes "hello" }

abbrev with_body : List Bytes → Bool → ResponseState
with_body chunks over = record { start = []; body = chunks; done = over; err = []; once = over }

abbrev pub greeted_exchange : Exchange
greeted_exchange = record { relay = returned complete greeted; incoming = []; gone = false }

pub greeted-Reach : Reach (forwarded created two_chunks []) greeted_exchange
unfolding deliver receive_frame send_or_done finish relay_step await_start drain settle write_chunk
    write new_response_state start_response write_header same
greeted-Reach =
    next
      (next
        (next
          (next
            (next
              (next stay (
                receives
                  {relay' = awaiting (record new_response_state { start = created ∷ [] })
                    (fresh_writer [])}
                  false none refl))
              (picks {relay' = streaming new_response_state opened} pick_start refl))
            (receives {relay' = streaming (with_body (codes "he" ∷ []) false) opened} false none
              refl))
          (receives {relay' = streaming (with_body two_chunks false) opened} false none refl))
        (receives {relay' = streaming (with_body two_chunks true) opened} false none refl))
      (picks pick_done refl)

complete_response_example :
    (greeted.status ≡ some 201)
    × (greeted.header ≡ copy [] (from_proto []))
    × (greeted.body ≡ codes "hello")
complete_response_example =
    complete_response created two_chunks [] greeted_exchange greeted greeted-Reach refl

complete_reachable_example :
    (x : Exchange) × (w : Writer) × Reach (forwarded created two_chunks []) x
    × (x.relay ≡ returned complete w)
complete_reachable_example = complete_reachable created two_chunks

-- Both chunks wait at the end of the request, and the first one is taken.
abbrev both_wait : Relay
both_wait = streaming (with_body two_chunks true) opened

abbrev one_waits : Relay
one_waits = streaming (with_body (codes "llo" ∷ []) true) (record opened { body = codes "he" })

one_waits-Takes : Takes both_wait 1 one_waits
unfolding relay_step stream_body after_chunk write_chunk write start_response write_header same
one_waits-Takes = takes_one false pick_body takes_none refl

handler_returns_example :
    (1 + cases_left one_waits ≤ cases_left both_wait)
    × (IsReturned one_waits ⊎ ((z : Relay) × (relay_step false pick_done one_waits ≡ some z)))
handler_returns_example = handler_returns both_wait one_waits 1 false refl one_waits-Takes
