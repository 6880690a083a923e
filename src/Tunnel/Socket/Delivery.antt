-- ===== src/Tunnel/Socket/Delivery.antt =====
-- What the handler receives of the payloads that the browser sent.
use muxbridge.Base.{
  ◌≡◌, ◌⊎◌, inl, inr, refl, sym, ap, ◌∙◌, subst, Bool, true, false, Option, none, some, some_inj,
  List, [], ◌∷◌, ◌++◌, arith, Bytes, append_assoc, append-nil, ℕ,
}
use muxbridge.Wire.{ClientFrame}
use muxbridge.Server.Relay.Frames.{joined, reassoc, queue_flow}
use muxbridge.Tunnel.Dispatch.{Inbound}
use muxbridge.Tunnel.Socket.{
  Side, Socket, relaying, closing, over, Relay, arrive, take_inbound, read_sent, read_payload,
  read_end, RelayStep, arrives, shuts, session_ends, takes, ends, leaves, waits_for_read, reads,
  reads_end, reads_buffered, reads_closed, RelayReach, stay, next,
}

-- A socket whose upgrade was just taken, with the browser's payloads and its close still to come.
abbrev pub opened_socket : {S : Type 0} → S → List Bytes → Relay S
opened_socket stream payloads = record {
  socket = relaying (record {
    inbound = record { queue = []; closed = false };
    written = [];
    read_done = false;
    stream = stream;
  });
  incoming = payloads;
  ending = true;
}

unfoldable pub received : {S : Type 0} → Socket S → Bytes
received (relaying p) = p.written
received (closing p) = p.written
received (over p) = p.written

-- All is here, unless the session ended before the browser's close.
abbrev IsWhole : Bytes → Bool → Type 0
IsWhole rest ending = (rest ≡ []) ⊎ (ending ≡ true)

-- A channel that is open misses nothing, and nothing is on its way to one that is closed.
abbrev IsKept : Inbound → Bytes → List Bytes → Bool → Type 0
IsKept ch rest incoming ending =
    ((ch.closed ≡ false) × (ending ≡ true) × (rest ≡ []))
    ⊎ ((ch.closed ≡ true) × (incoming ≡ []) × IsWhole rest ending)

arrive_lem :
    (payload : Bytes) (ch ch' : Inbound)
    → arrive payload ch ≡ some ch'
    → (ch'.queue ≡ ch.queue ++ payload ∷ []) × (ch'.closed ≡ ch.closed)
unfolding arrive
arrive_lem payload ch ch' g = ground arith

module _ {S : Type 0} (all : Bytes) where
  abbrev Flows : Socket S → List Bytes → Bool → Type 0
  Flows (relaying p) incoming ending =
      (rest : Bytes) × (p.written ++ (joined p.inbound.queue ++ (joined incoming ++ rest)) ≡ all)
      × IsKept p.inbound rest incoming ending
  Flows (closing p) incoming ending =
      (rest : Bytes) × (p.written ++ rest ≡ all) × IsWhole rest ending
  Flows (over p) incoming ending = (rest : Bytes) × (p.written ++ rest ≡ all)

  arrives-Flows :
      (p : Side S) (payload : Bytes) (ch : Inbound) (incoming : List Bytes) (ending : Bool)
      → arrive payload p.inbound ≡ some ch
      → Flows (relaying p) (payload ∷ incoming) ending
      → Flows (relaying (record p { inbound = ch })) incoming ending
  arrives-Flows p payload ch incoming ending g (rest, e, inl (open_, whole, nothing)) =
      let took = arrive_lem payload p.inbound ch g in
      (
        rest,
        ap (λ x. p.written ++ (joined x ++ (joined incoming ++ rest))) took.0
            ∙ queue_flow p.written p.inbound.queue payload (joined incoming ++ rest)
            ∙ ap (λ x. p.written ++ (joined p.inbound.queue ++ x))
                (sym (append_assoc payload (joined incoming) rest))
            ∙ e,
        inl (took.1 ∙ open_, whole, nothing),
      )
  arrives-Flows p payload ch incoming ending g (rest, e, inr (shut, none_left, w)) = cc

  shuts-Flows :
      (p : Side S)
      → p.inbound.closed ≡ false
      → Flows (relaying p) [] true
      → Flows (relaying (record p { inbound = record p.inbound { closed = true } })) [] false
  shuts-Flows p c (rest, e, inl (open_, whole, nothing)) = (rest, e, inr (refl, refl, inl nothing))
  shuts-Flows p c (rest, e, inr (shut, none_left, w)) = cc

  session_ends-Flows :
      (p : Side S) (incoming : List Bytes) (ending : Bool)
      → p.inbound.closed ≡ false
      → Flows (relaying p) incoming ending
      → Flows (relaying (record p { inbound = record p.inbound { closed = true } })) [] ending
  session_ends-Flows p incoming ending c (rest, e, inl (open_, whole, nothing)) =
      (joined incoming ++ rest, e, inr (refl, refl, inr whole))
  session_ends-Flows p incoming ending c (rest, e, inr (shut, none_left, w)) = cc

  takes-Flows :
      (p : Side S) (q incoming : List Bytes) (ending fine : Bool) (s : Socket S)
      → p.inbound.queue ≡ q
      → take_inbound fine p ≡ some s
      → Flows (relaying p) incoming ending
      → Flows s incoming ending
  unfolding take_inbound
  takes-Flows p [] incoming ending fine s q g (rest, e, inl (open_, whole, nothing)) =
      cc (rw (q, open_) at g)
  takes-Flows p [] incoming ending fine s q g (rest, e, inr (shut, none_left, w)) =
      subst (λ x. Flows x incoming ending) (some_inj (rw (q, shut) at g))
        (rest, rw (q, none_left) at e, w)
  takes-Flows p (c ∷ cs) incoming ending true s q g (rest, e, k) =
      subst (λ x. Flows x incoming ending) (some_inj (rw q at g))
        (rest, sym (reassoc p.written c (joined cs) (joined incoming ++ rest)) ∙ rw q at e, k)
  takes-Flows p (c ∷ cs) incoming ending false s q g (rest, e, k) =
      subst (λ x. Flows x incoming ending) (some_inj (rw q at g))
        (joined p.inbound.queue ++ (joined incoming ++ rest), e)

module _ {S : Type 0} (send : ClientFrame → S → Option Bytes × S) (id : ℕ) where
  -- The read loop keeps what the other side of the socket has.
  read_sent-kept :
      (p : Side S) (r : Option Bytes × S)
      → ((read_sent p r).inbound ≡ p.inbound) × ((read_sent p r).written ≡ p.written)
  unfolding read_sent
  read_sent-kept p (none, stream) = (refl, refl)
  read_sent-kept p (some e, stream) = (refl, refl)

  same_side-Flows :
      (all : Bytes) (p p' : Side S) (incoming : List Bytes) (ending : Bool)
      → (p'.inbound ≡ p.inbound) × (p'.written ≡ p.written)
      → Flows all (relaying p) incoming ending
      → Flows all (relaying p') incoming ending
  same_side-Flows all p p' incoming ending (i, w) (rest, e, k) = (
    rest,
    ap (λ x. x ++ (joined p'.inbound.queue ++ (joined incoming ++ rest))) w
        ∙ ap (λ x. p.written ++ (joined x.queue ++ (joined incoming ++ rest))) i
        ∙ e,
    subst (λ x. IsKept x rest incoming ending) (sym i) k,
  )

  RelayStep-Flows :
      (all : Bytes) {x y : Relay S}
      → RelayStep send id x y
      → Flows all x.socket x.incoming x.ending
      → Flows all y.socket y.incoming y.ending
  unfolding read_payload read_end
  RelayStep-Flows all (arrives {p} ch g) h = arrives-Flows all p _ ch _ _ g h
  RelayStep-Flows all (shuts {p} c) h = shuts-Flows all p c h
  RelayStep-Flows all (session_ends {p} c) h = session_ends-Flows all p _ _ c h
  RelayStep-Flows all (takes {p} fine g) h = takes-Flows all p _ _ _ fine _ refl g h
  RelayStep-Flows all (ends e) (rest, f, k) = (_, f)
  RelayStep-Flows all leaves (rest, f, k) = (_, f)
  RelayStep-Flows all (waits_for_read e) (rest, f, k) = (rest, f)
  RelayStep-Flows all (reads {p} payload e) h =
      same_side-Flows all p (read_payload send id payload p) _ _
        (read_sent-kept p (send (ClientFrame.ws_data id payload) p.stream)) h
  RelayStep-Flows all (reads_end e) h = h
  RelayStep-Flows all (reads_buffered {p} payload e) (rest, f, k) = (
    rest,
    ap (λ x. x ++ rest) (read_sent-kept p (send (ClientFrame.ws_data id payload) p.stream)).1 ∙ f,
    k,
  )
  RelayStep-Flows all (reads_closed e) h = h

  RelayReach-Flows :
      (stream : S) (payloads : List Bytes) {x : Relay S}
      → RelayReach send id (opened_socket stream payloads) x
      → Flows (joined payloads) x.socket x.incoming x.ending
  RelayReach-Flows stream payloads stay = ([], append-nil (joined payloads), inl (refl, refl, refl))
  RelayReach-Flows stream payloads (next r st) =
      RelayStep-Flows (joined payloads) st (RelayReach-Flows stream payloads r)

received-Flows :
    {S : Type 0} (all : Bytes) (s : Socket S) (incoming : List Bytes) (ending : Bool)
    → Flows all s incoming ending
    → (rest : Bytes) × (received s ++ rest ≡ all)
unfolding received
received-Flows all (relaying p) incoming ending (rest, e, k) = (_, e)
received-Flows all (closing p) incoming ending (rest, e, k) = (rest, e)
received-Flows all (over p) incoming ending h = h

whole-Flows :
    {S : Type 0} (all : Bytes) (p : Side S) (incoming : List Bytes) (ending : Bool)
    → ending ≡ false
    → Flows all (closing p) incoming ending
    → p.written ≡ all
whole-Flows all p incoming ending f (rest, e, inl nothing) =
    sym (append-nil p.written) ∙ ap (λ x. p.written ++ x) (sym nothing) ∙ e
whole-Flows all p incoming ending f (rest, e, inr t) = cc

-- Whatever the order in which the session takes the browser's payloads and its close, the socket's
-- handler takes its cases, the read loop reads, a write or a send fails, the session ends and the
-- context is canceled: the bytes that the connection of the `http.Handler` got are a beginning of the
-- browser's bytes; and once the browser's close was taken and the relay has closed that connection on
-- it, they are all of the browser's bytes.
pub handler_receives :
    {S : Type 0} (send : ClientFrame → S → Option Bytes × S) (id : ℕ) (stream : S)
    (payloads : List Bytes) (x : Relay S)
    → RelayReach send id (opened_socket stream payloads) x
    → ((rest : Bytes) × (received x.socket ++ rest ≡ joined payloads))
      × ((p : Side S) → x.socket ≡ closing p → x.ending ≡ false → p.written ≡ joined payloads)
handler_receives send id stream payloads x r =
    let h = RelayReach-Flows send id stream payloads r in
    (
      received-Flows (joined payloads) x.socket x.incoming x.ending h,
      λ p e f.
          whole-Flows (joined payloads) p x.incoming x.ending f
            (subst (λ s. Flows (joined payloads) s x.incoming x.ending) e h),
    )
