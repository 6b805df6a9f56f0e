-- ===== src/Destination/HttpProxy/Bounds.antt =====
-- How many bytes client/destination/http_proxy.go assigns to a request.
use gforward.Prelude.{
  ℕ, ◌+◌, ◌-◌, ◌<◌, ◌≤◌, ◌≡◌, refl, sym, ap, true, false, Option, none, some, List, [], ◌∷◌, length,
  drop, ltb, ◌==◌, ok, err, insert, delete, arith, Bool-cases, inl, inr, length-drop, str_eq,
}
use gforward.Destination.Parser.{IsGnet, ParseResult, ParseEnd}
use gforward.Destination.Hosts.{has_chunked_transfer_encoding}
use gforward.Destination.HttpProxy.{
  HttpRequest, ReadEnd, read, short, malformed, HttpEnv, RequestState, States, Taken, ended,
  waits_for_more, sends_bytes, tunnels_to, continue_body, start_body, new_request, on_read,
  on_state, parse_http_proxy, max_payload_len, connect_name, ack,
}
use gforward.Destination.HttpProxy.Counts.{IsReady, IsOpen, Bounded, consume_request-Bounded}

abbrev pub AllOpen : States → Type 0
AllOpen m = (conn : ℕ) (s : RequestState) → m conn ≡ some s → IsOpen s

-- `http.ReadRequest` reads some bytes, and no more than there are.
abbrev pub IsReader : HttpEnv → Type 0
IsReader env =
    (buf : List ℕ) (req : HttpRequest) (k : ℕ)
    → env.read_request buf ≡ read req k
    → (0 < k) × (k ≤ length buf)

-- What a parse leaves: open states, a buffer that has not grown, and a result that either tunnels
-- or takes a positive number of bytes, within 65535 and within the buffer, which is left alone.
pub record IsBounded (buf : List ℕ) (e : ParseEnd States) : Type 0 where
  pub states : AllOpen e.state
  pub shrinks : length e.buffer ≤ length buf
  pub sends :
      (r : ParseResult)
      → e.result ≡ some r
      → r.per_request ≡ true
      → (0 < r.payload_len)
        × (r.payload_len ≤ max_payload_len)
        × (r.payload_len ≤ length buf)
        × (e.buffer ≡ buf)
  pub tunnels :
      (r : ParseResult)
      → e.result ≡ some r
      → r.per_request ≡ false
      → (r.payload_len ≡ 0) × (r.payload ≡ none)

delete-AllOpen : (m : States) (conn : ℕ) → AllOpen m → AllOpen (delete conn m)
delete-AllOpen m conn h c s e = h c s (ground (arith, e))

pub insert-AllOpen :
    (m : States) (conn : ℕ) (s : RequestState) → AllOpen m → IsOpen s → AllOpen (insert conn s m)
insert-AllOpen m conn s h o c s' e = elim (Bool-cases (conn == c)) [
  | inl hit ↦ let same : s ≡ s' = ground (arith, hit, e) in rw same at o
  | inr miss ↦ h c s' (ground (arith, miss, e))
]

some_injective : {A : Type 0} (x y : A) → some x ≡ some y → x ≡ y
some_injective x y e = cc

failed-IsBounded : (m : States) (buf : List ℕ) → AllOpen m → IsBounded buf (ended m buf none)
failed-IsBounded m buf h = record {
  states = h;
  shrinks = omega arith;
  sends = λ r e p. cc;
  tunnels = λ r e p. cc;
}

waiting-IsBounded :
    (m : States) (buf : List ℕ) → AllOpen m → IsBounded buf (ended m buf (some waits_for_more))
waiting-IsBounded m buf h = record {
  states = h;
  shrinks = omega arith;
  sends = λ r e p. let same = some_injective waits_for_more r e in absurd (ground (arith, same, p));
  tunnels = λ r e p. let same = some_injective waits_for_more r e in ground (arith, same);
}

sent-IsBounded :
    (m : States) (buf dest : List ℕ) (n : ℕ)
    → AllOpen m
    → 0 < n
    → n ≤ max_payload_len
    → n ≤ length buf
    → IsBounded buf (ended m buf (some (sends_bytes dest n)))
sent-IsBounded m buf dest n h lo hi fits = record {
  states = h;
  shrinks = omega arith;
  sends = λ r e p.
      let same : n ≡ r.payload_len =
        ap (λ x. x.payload_len) (some_injective (sends_bytes dest n) r e) in
      (omega arith, omega arith, omega arith, refl);
  tunnels = λ r e p.
      let same : true ≡ r.per_request =
        ap (λ x. x.per_request) (some_injective (sends_bytes dest n) r e) in
      absurd (cc);
}

tunnelled-IsBounded :
    (m : States) (buf rest dest bytes : List ℕ)
    → AllOpen m
    → length rest ≤ length buf
    → IsBounded buf
        (record { state = m; buffer = rest; written = bytes ∷ []; result = some (tunnels_to dest) })
tunnelled-IsBounded m buf rest dest bytes h le = record {
  states = h;
  shrinks = le;
  sends = λ r e p.
      let same : false ≡ r.per_request =
        ap (λ x. x.per_request) (some_injective (tunnels_to dest) r e) in
      absurd (cc);
  tunnels = λ r e p.
      let same = some_injective (tunnels_to dest) r e in
      (sym (ap (λ x. x.payload_len) same), sym (ap (λ x. x.payload) same));
}

continue_body-IsBounded :
    (m : States) (conn : ℕ) (buf : List ℕ) (s : RequestState) (r : Taken)
    → AllOpen m
    → 0 < length buf
    → IsOpen s
    → Bounded (length buf) max_payload_len (IsOpen s) r
    → IsBounded buf (continue_body m conn buf r)
continue_body-IsBounded m conn buf s (err e) h lt o b =
    failed-IsBounded (delete conn m) buf (delete-AllOpen m conn h)
continue_body-IsBounded m conn buf s (ok (s', n, true)) h lt o b =
    sent-IsBounded (delete conn m) buf s'.destination n (delete-AllOpen m conn h)
      (b.3 o lt (omega arith)) b.1 b.0
continue_body-IsBounded m conn buf s (ok (s', n, false)) h lt o b =
    sent-IsBounded (insert conn s' m) buf s'.destination n (insert-AllOpen m conn s' h (b.2 refl))
      (b.3 o lt (omega arith)) b.1 b.0

start_body-IsBounded :
    (m : States) (conn : ℕ) (buf : List ℕ) (k : ℕ) (A : Type 0) (r : Taken)
    → AllOpen m
    → 0 < k
    → k ≤ length buf
    → k ≤ max_payload_len
    → Bounded (length (drop k buf)) (max_payload_len - k) A r
    → IsBounded buf (start_body m conn buf k r)
start_body-IsBounded m conn buf k A (err e) h lo fits hi b = failed-IsBounded m buf h
start_body-IsBounded m conn buf k A (ok (s, n, true)) h lo fits hi b =
    let size = length-drop k buf in
    sent-IsBounded m buf s.destination (k + n) h (omega arith) (omega (arith, b.1))
      (omega (arith, b.0, size))
start_body-IsBounded m conn buf k A (ok (s, n, false)) h lo fits hi b =
    let size = length-drop k buf in
    sent-IsBounded (insert conn s m) buf s.destination (k + n)
      (insert-AllOpen m conn s h (b.2 refl)) (omega arith) (omega (arith, b.1))
      (omega (arith, b.0, size))

new_request-IsReady : (req : HttpRequest) → IsReady (new_request req).chunked
new_request-IsReady req = elim (Bool-cases (has_chunked_transfer_encoding req.transfer_encoding)) [
  | inl given ↦ rw given (λ e. cc)
  | inr missing ↦ rw missing tt
]

pub discard-length :
    (env : HttpEnv) (buf : List ℕ) (k : ℕ)
    → IsGnet env.gnet
    → 0 < k
    → k ≤ length buf
    → length (env.gnet.discard buf k) ≤ length buf
discard-length env buf k laws lo hi =
    rw (laws.discard_some buf k lo hi) (omega (arith, length-drop k buf))

on_read-IsBounded :
    (env : HttpEnv) (m : States) (conn : ℕ) (buf : List ℕ) (o : ReadEnd)
    → IsGnet env.gnet
    → AllOpen m
    → ((req : HttpRequest) (k : ℕ) → o ≡ read req k → (0 < k) × (k ≤ length buf))
    → IsBounded buf (on_read env m conn buf o)
on_read-IsBounded env m conn buf short laws h law = waiting-IsBounded m buf h
on_read-IsBounded env m conn buf malformed laws h law = failed-IsBounded m buf h
on_read-IsBounded env m conn buf (read req k) laws h law =
    let (lo, fits) = law req k refl in
    elim (Bool-cases (ltb max_payload_len k)) [
      | inl large ↦ rw large (failed-IsBounded m buf h)
      | inr small ↦ rw small (elim (Bool-cases (str_eq req.method connect_name)) [
        | inr other ↦ rw other (
            start_body-IsBounded m conn buf k (IsOpen (new_request req)) _ h lo fits
              (ground (arith, small))
              (consume_request-Bounded (new_request req) (drop k buf) (max_payload_len - k)
                (new_request-IsReady req)))
        | inl connects ↦ rw connects (elim (Bool-cases (env.write_ok conn (ack req.proto))) [
          | inl acked ↦ rw acked (
              tunnelled-IsBounded m buf (env.gnet.discard buf k) _ (ack req.proto) h
                (discard-length env buf k laws lo fits))
          | inr broken ↦ rw broken (failed-IsBounded m buf h)
        ])
      ])
    ]

on_state-IsBounded :
    (env : HttpEnv) (m : States) (conn : ℕ) (buf : List ℕ) (o : Option RequestState)
    → IsGnet env.gnet
    → IsReader env
    → AllOpen m
    → 0 < length buf
    → m conn ≡ o
    → IsBounded buf (on_state env m conn buf o)
on_state-IsBounded env m conn buf none laws law h lt e =
    on_read-IsBounded env m conn buf (env.read_request buf) laws h (law buf)
on_state-IsBounded env m conn buf (some s) laws law h lt e =
    continue_body-IsBounded m conn buf s _ h lt (h conn s e)
      (consume_request-Bounded s buf max_payload_len (h conn s e).0)

-- A parse of the proxy mode on a buffer that is not empty, from states of bodies that go on: the
-- states that it leaves are such states again; a request is assigned a positive number of bytes,
-- at most 65535 and no more than are buffered, and they stay in the buffer; a CONNECT has no bytes
-- assigned; and nothing is put into the buffer.
pub parse_http_proxy-IsBounded :
    (env : HttpEnv) (m : States) (conn : ℕ) (buf : List ℕ)
    → IsGnet env.gnet
    → IsReader env
    → AllOpen m
    → 0 < length buf
    → IsBounded buf (parse_http_proxy env m conn buf)
unfolding parse_http_proxy
parse_http_proxy-IsBounded env m conn buf laws law h lt =
    rw (laws.peek_all buf) (on_state-IsBounded env m conn buf (m conn) laws law h lt refl)
