-- ===== src/Rtp/Receive/Delivery.antt =====
-- internal/rtp/port.go: the payloads, the count and the peer after readLoop.
use sip_relay.Prelude.{
  ℕ, suc, ◌+◌, ◌-◌, ◌%◌, ◌^◌, ◌≤◌, ◌<◌, ◌≡◌, refl, sym, subst, ap, ◌∙◌, false, Option, none, some,
  List, [], ◌∷◌, ◌++◌, inl, inr, arith, ltb, ◌==◌, if◌then◌else◌, length, take, length-append,
  append_assoc, append-nil, ltb→lt, Bool-cases,
}
use sip_relay.Rtp.{Port, UdpAddr}
use sip_relay.Rtp.Receive.{
  Inbound, Read, Turn, take_payload, mtu_size, received_cap, accept_result, read_datagram,
  read_loop,
}

-- The packet that a datagram carries, if it parses and has the negotiated payload type.
abbrev pub usable : ℕ → Option Inbound → Option Inbound
usable pt none = none
usable pt (some pkt) = if pkt.payload_type == pt then some pkt else none

abbrev pub payload_of : Option Inbound → List (List ℕ)
payload_of none = []
payload_of (some pkt) = pkt.payload ∷ []

-- The queue after one more payload, if there is room for it.
abbrev queued : ℕ → List (List ℕ) → List (List ℕ) → List (List ℕ)
queued n q [] = q
queued n q (x ∷ xs) = if ltb (length q) n then q ++ (x ∷ []) else q

-- Payloads of a list, in order, with others left out.
pub data IsPart : List (List ℕ) → List (List ℕ) → Type 0 where
  none_left : IsPart [] []
  kept : (x : List ℕ) {xs ys : List (List ℕ)} → IsPart xs ys → IsPart (x ∷ xs) (x ∷ ys)
  lost : (x : List ℕ) {xs ys : List (List ℕ)} → IsPart xs ys → IsPart xs (x ∷ ys)

IsPart-refl : (xs : List (List ℕ)) → IsPart xs xs
IsPart-refl [] = IsPart.none_left
IsPart-refl (x ∷ xs) = IsPart.kept x (IsPart-refl xs)

-- What is lost of the end of a list.
IsPart-lost :
    (q : List (List ℕ)) (x : List ℕ) (ys : List (List ℕ)) {xs : List (List ℕ)}
    → IsPart xs (q ++ ys)
    → IsPart xs (q ++ (x ∷ ys))
IsPart-lost [] x ys h = IsPart.lost x h
IsPart-lost (y ∷ q) x ys (IsPart.kept _ h) = IsPart.kept y (IsPart-lost q x ys h)
IsPart-lost (y ∷ q) x ys (IsPart.lost _ h) = IsPart.lost y (IsPart-lost q x ys h)

-- One datagram: what it leaves alone, and what it changes if it is usable.
record Accepted (p : Port) (src : UdpAddr) (o : Option Inbound) (p' : Port) : Type 0 where
  queue : p'.received ≡ queued received_cap p.received (payload_of (usable p.payload_type o))
  count :
      p'.packet_count ≡ (p.packet_count + length (payload_of (usable p.payload_type o))) % 2 ^ 64
  same_type : p'.payload_type ≡ p.payload_type
  same_mode : p'.symmetric_rtp ≡ p.symmetric_rtp
  same_closed : p'.closed ≡ p.closed
  no_peer : p.symmetric_rtp ≡ false → p'.remote ≡ p.remote
  unusable : usable p.payload_type o ≡ none → p' ≡ p

accept_result_lem :
    (p : Port) (src : UdpAddr) (o : Option Inbound)
    → p.packet_count < 2 ^ 64
    → Accepted p src o (accept_result p src o)
unfolding accept_result
accept_result_lem p src none h = record {
  queue = refl;
  count = omega arith;
  same_type = refl;
  same_mode = refl;
  same_closed = refl;
  no_peer = λ e. refl;
  unusable = λ e. refl;
}
accept_result_lem p src (some pkt) h = ground arith

-- What the channel meets: a payload to be put in, or a receive.
pub data Traffic : Type 0 where
  payload : List ℕ → Traffic
  receive : Traffic

abbrev traffic_of : List (List ℕ) → List Traffic
traffic_of [] = []
traffic_of (x ∷ xs) = Traffic.payload x ∷ traffic_of xs

abbrev pub offered : List Traffic → List (List ℕ)
offered [] = []
offered (Traffic.payload x ∷ ts) = x ∷ offered ts
offered (Traffic.receive ∷ ts) = offered ts

-- Of a channel in which so many payloads wait, there is room for each payload that comes.
abbrev pub HasRoom : ℕ → List Traffic → Type 0
HasRoom n [] = Unit
HasRoom n (Traffic.payload x ∷ ts) = (n < received_cap) × HasRoom (suc n) ts
HasRoom n (Traffic.receive ∷ ts) = HasRoom (n - 1) ts

offered-traffic_of :
    (now : List (List ℕ)) (ts : List Traffic) → offered (traffic_of now ++ ts) ≡ now ++ offered ts
offered-traffic_of [] ts = refl
offered-traffic_of (x ∷ xs) ts = ap (λ t. x ∷ t) (offered-traffic_of xs ts)

-- A payload, if any, is put into a channel that has room for it, or is lost.
record IsPut (q now : List (List ℕ)) (ts : List Traffic) (q' : List (List ℕ)) : Type 0 where
  part : (xs : List (List ℕ)) → IsPart xs (q' ++ offered ts) → IsPart xs (q ++ (now ++ offered ts))
  bound : length q' ≤ received_cap
  fits : HasRoom (length q) (traffic_of now ++ ts) → HasRoom (length q') ts × (q' ≡ q ++ now)

queued-IsPut :
    (q : List (List ℕ)) (ts : List Traffic) (o : Option Inbound)
    → length q ≤ received_cap
    → IsPut q (payload_of o) ts (queued received_cap q (payload_of o))
queued-IsPut q ts none h = record {
  part = λ xs v. v;
  bound = h;
  fits = λ r. (r, sym (append-nil q));
}
queued-IsPut q ts (some pkt) h = elim (Bool-cases (ltb (length q) received_cap)) [
  | inl e ↦ rw e (record {
    part = λ xs v. subst (IsPart xs) (append_assoc q (pkt.payload ∷ []) (offered ts)) v;
    bound = omega (arith, length-append q (pkt.payload ∷ []), ltb→lt (length q) received_cap e);
    fits = λ r.
        let longer : suc (length q) ≡ length (q ++ (pkt.payload ∷ [])) =
          omega (arith, length-append q (pkt.payload ∷ [])) in
        (subst (λ n. HasRoom n ts) longer r.1, refl);
  })
  | inr e ↦ rw e (record {
    part = λ xs v. IsPart-lost q pkt.payload (offered ts) v;
    bound = h;
    fits = λ r. absurd (ground (arith, r.0));
  })
]

IsPart-behind :
    (zs : List (List ℕ)) {xs ys : List (List ℕ)} → IsPart xs ys → IsPart (zs ++ xs) (zs ++ ys)
IsPart-behind [] h = h
IsPart-behind (z ∷ zs) h = IsPart.kept z (IsPart-behind zs h)

-- A receive gives the oldest payload, and leaves the rest of the port alone.
record Took (p : Port) (r : Port × List (List ℕ)) : Type 0 where
  split : r.1 ++ r.0.received ≡ p.received
  fewer : length r.0.received ≡ length p.received - 1
  same_count : r.0.packet_count ≡ p.packet_count
  same_mode : r.0.symmetric_rtp ≡ p.symmetric_rtp
  same_peer : r.0.remote ≡ p.remote
  same_type : r.0.payload_type ≡ p.payload_type

take_payload_lem : (p : Port) → Took p (take_payload p)
take_payload_lem p = record {
  split = ground arith;
  fewer = ground arith;
  same_count = ground arith;
  same_mode = ground arith;
  same_peer = ground arith;
  same_type = ground arith;
}

-- What holds of a port p that becomes p' while `out` is received and the channel meets `ts`.
pub record IsServed (p : Port) (ts : List Traffic) (p' : Port) (out : List (List ℕ)) : Type 0 where
  pub in_order : IsPart (out ++ p'.received) (p.received ++ offered ts)
  pub bounded : length p'.received ≤ received_cap
  pub whole : HasRoom (length p.received) ts → out ++ p'.received ≡ p.received ++ offered ts
  pub count : p'.packet_count ≡ (p.packet_count + length (offered ts)) % 2 ^ 64
  pub no_peer : p.symmetric_rtp ≡ false → p'.remote ≡ p.remote

idle : (p : Port) → length p.received ≤ received_cap → p.packet_count < 2 ^ 64 → IsServed p [] p []
idle p hq hc = record {
  in_order = subst (IsPart p.received) (sym (append-nil p.received)) (IsPart-refl p.received);
  bounded = hq;
  whole = λ h. sym (append-nil p.received);
  count = omega arith;
  no_peer = λ e. refl;
}

put_in :
    (p p' last : Port) (src : UdpAddr) (o : Option Inbound) (ts : List Traffic)
    (out : List (List ℕ))
    → length p.received ≤ received_cap
    → Accepted p src o p'
    → IsServed p' ts last out
    → IsServed p (traffic_of (payload_of (usable p.payload_type o)) ++ ts) last out
put_in p p' last src o ts out hq a v =
    let now = payload_of (usable p.payload_type o) in
    let all = traffic_of now ++ ts in
    let b = queued-IsPut p.received ts (usable p.payload_type o) hq in
    let same = offered-traffic_of now ts in
    record {
      in_order =
          subst (λ l. IsPart (out ++ last.received) (p.received ++ l)) (sym same)
            (b.part _
              (subst (λ q. IsPart (out ++ last.received) (q ++ offered ts)) a.queue v.in_order));
      bounded = v.bounded;
      whole = λ r.
          let (room, queue) = b.fits r in
          v.whole (subst (λ q. HasRoom (length q) ts) (sym a.queue) room)
          ∙ ap (λ q. q ++ offered ts) (a.queue ∙ queue)
          ∙ append_assoc p.received now (offered ts)
          ∙ ap (λ l. p.received ++ l) (sym same);
      count = omega (arith, v.count, a.count, ap length same, length-append now (offered ts));
      no_peer = λ e. v.no_peer (a.same_mode ∙ e) ∙ a.no_peer e;
    }

take_payload-IsServed :
    (p last : Port) (ts : List Traffic) (out : List (List ℕ))
    → IsServed (take_payload p).0 ts last out
    → IsServed p (Traffic.receive ∷ ts) last ((take_payload p).1 ++ out)
take_payload-IsServed p last ts out v =
    let t = take_payload_lem p in
    let first = (take_payload p).1 in
    let rest = (take_payload p).0.received in
    let joined = append_assoc first out last.received in
    let split = ap (λ q. q ++ offered ts) (sym t.split) ∙ append_assoc first rest (offered ts) in
    record {
      in_order =
          subst (λ l. IsPart l (p.received ++ offered ts)) (sym joined)
            (subst (IsPart (first ++ (out ++ last.received))) (sym split)
              (IsPart-behind first v.in_order));
      bounded = v.bounded;
      whole = λ r.
          joined
          ∙ ap (λ l. first ++ l) (v.whole (subst (λ n. HasRoom n ts) (sym t.fewer) r))
          ∙ sym split;
      count = omega (arith, v.count, t.same_count);
      no_peer = λ e. v.no_peer (t.same_mode ∙ e) ∙ t.same_peer;
    }

module _ (unmarshal : List ℕ → Option Inbound) where
  -- The payloads of usable packets and the receives, before the loop ends.
  abbrev pub traffic : ℕ → List Turn → List Traffic
  traffic pt [] = []
  traffic pt (Turn.read (Read.failed c) ∷ turns) = []
  traffic pt (Turn.read (Read.datagram bytes src) ∷ turns) =
      traffic_of (payload_of (usable pt (unmarshal (take mtu_size bytes)))) ++ traffic pt turns
  traffic pt (Turn.take_one ∷ turns) = Traffic.receive ∷ traffic pt turns

  -- From a port whose channel holds at most 128 payloads and whose count is below 2^64, whatever the
  -- socket returns, and whenever the receiver of the channel takes a payload in between: what it was given
  -- and what then waits in the channel, at most 128 payloads, are in order of arrival payloads that waited
  -- before or came in well-formed packets of the negotiated payload type; none is lost if there was room
  -- in the channel whenever one came; every such packet is counted, modulo 2^64; and without symmetric RTP
  -- no packet moves the peer.
  pub read_loop_lem :
      (turns : List Turn) (p : Port)
      → length p.received ≤ received_cap
      → p.packet_count < 2 ^ 64
      → let (p', out, end) = read_loop unmarshal p turns in
        IsServed p (traffic p.payload_type turns) p' out
  unfolding read_loop read_datagram
  read_loop_lem [] p hq hc = idle p hq hc
  read_loop_lem (Turn.read (Read.failed c) ∷ turns) p hq hc = idle p hq hc
  read_loop_lem (Turn.read (Read.datagram bytes src) ∷ turns) p hq hc =
      let o = unmarshal (take mtu_size bytes) in
      let p' = accept_result p src o in
      let a = accept_result_lem p src o hc in
      let b = queued-IsPut p.received [] (usable p.payload_type o) hq in
      let (last, out, end) = read_loop unmarshal p' turns in
      let rest =
        read_loop_lem turns p' (subst (λ q. length q ≤ received_cap) (sym a.queue) b.bound)
          (omega (arith, a.count)) in
      put_in p p' last src o (traffic p.payload_type turns) out hq a
        (subst (λ pt. IsServed p' (traffic pt turns) last out) a.same_type rest)
  read_loop_lem (Turn.take_one ∷ turns) p hq hc =
      let t = take_payload_lem p in
      let p' = (take_payload p).0 in
      let (last, out, end) = read_loop unmarshal p' turns in
      take_payload-IsServed p last (traffic p.payload_type turns) out (
        subst (λ pt. IsServed p' (traffic pt turns) last out) t.same_type
          (read_loop_lem turns p' (omega (arith, t.fewer)) (omega (arith, t.same_count))))
