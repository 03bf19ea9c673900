-- ===== src/Noise/Examples.antt =====
-- Two connected streams over a toy cipher that marks each message with its nonce.
use shardscape.Base.{
  ℕ, suc, ◌+◌, ◌-◌, ◌^◌, ◌≡◌, ◌≢◌, refl, ◌⊎◌, inl, inr, [], ◌∷◌, ◌++◌, Bytes, text, Option, none,
  some, length, take, ltb, nat_beq, Bool-cases, if◌then◌else◌, length-append, take-append_length,
  arith,
}
use shardscape.Noise.Handshake.{Handshake, connect, accept}
use shardscape.Noise.Handshake.Agreed.{Agree, connect-accept}
use shardscape.Noise.{
  Cipher, Poll, pending, failed, ready, brings, stalls, takes, Inner, NoiseStream, IoError,
  invalid_data, from_transport, split_frame, try_decrypt_one_frame,
}
use shardscape.Noise.Reader.{poll_read, pull, refill}
use shardscape.Noise.Writer.{flush, flush_write_cipher, chunks, encrypt, encrypt_all, poll_write}
use shardscape.Noise.Frames.{CipherLaws}
use shardscape.Noise.Sent.{Sent}
use shardscape.Noise.Received.{Received, arriving, poll_read-Received}
use shardscape.Noise.Progress.{poll_read_total, poll_read-delivers}
use shardscape.Noise.Polls.{MovesNothing, poll_write-Sent}
use shardscape.Noise.Session.{Session, opened, wrote, read, Session-Sent, Session-duplex}

abbrev padding : Bytes
padding = text "---------------"

abbrev seal : ℕ → Bytes → Option Bytes
seal n p = if ltb (length p + 16) (2 ^ 16) then some (n ∷ (p ++ padding)) else none

abbrev unseal : ℕ → Bytes → Option Bytes
unseal n [] = none
unseal n (m ∷ c) = if nat_beq m n then some (take (length c - 15) c) else none

abbrev marked : Cipher
marked = record { write_message = seal; read_message = unseal }

marked-CipherLaws : CipherLaws marked marked
marked-CipherLaws = record {
  opens = λ n p c e. elim (Bool-cases (ltb (length p + 16) (2 ^ 16))) [
    | inl fits ↦
        let q : some (n ∷ (p ++ padding)) ≡ some c = rw fits at e in
        let same : c ≡ n ∷ (p ++ padding) = cc (q) in
        let size : length (p ++ padding) - 15 ≡ length p = omega (arith, length-append p padding) in
        rw same (rw size (ground (arith, take-append_length p padding)))
    | inr long ↦ absurd (let q : none ≡ some c = rw long at e in cc (q))
  ];
  short = λ n p c e. elim (Bool-cases (ltb (length p + 16) (2 ^ 16))) [
    | inl fits ↦
        let q : some (n ∷ (p ++ padding)) ≡ some c = rw fits at e in
        let same : c ≡ n ∷ (p ++ padding) = cc (q) in
        rw same (ground (arith, fits, length-append p padding))
    | inr long ↦ absurd (let q : none ≡ some c = rw long at e in cc (q))
  ];
}

abbrev quiet : Inner → Poll (Unit {0}) × Inner
quiet i = (ready tt, i)

quiet-MovesNothing : MovesNothing quiet
quiet-MovesNothing = record { arrivals = λ i. refl; wire = λ i. refl }

-- One end, whose stream below takes five bytes and then stalls.
abbrev near_inner : Inner
near_inner = record { arrivals = []; rooms = takes 5 ∷ stalls ∷ takes 100 ∷ []; wire = [] }

near : NoiseStream
near = (poll_write marked (text "hello") (from_transport near_inner)).1

near_accepts : poll_write marked (text "hello") (from_transport near_inner) ≡ (ready 5, near)
unfolding near poll_write encrypt_all encrypt flush_write_cipher flush chunks
near_accepts = refl

near-Session : Session marked quiet near_inner near (text "hello") []
near-Session = wrote (from_transport near_inner) near [] [] (text "hello") 5 opened near_accepts

-- The other end, to which the frame comes in two pieces.
abbrev far_inner : Inner
far_inner = record {
  arrivals = brings (0 ∷ 21 ∷ 0 ∷ []) ∷ stalls ∷ brings (text "hello" ++ padding) ∷ [];
  rooms = [];
  wire = [];
}

abbrev waiting : NoiseStream
waiting = record (from_transport far_inner) {
  inner = record far_inner { arrivals = brings (text "hello" ++ padding) ∷ [] };
  read_cipher = 0 ∷ 21 ∷ 0 ∷ [];
}

far_waits : poll_read marked 100 2 (from_transport far_inner) ≡ some (pending, waiting)
unfolding poll_read refill pull try_decrypt_one_frame split_frame
far_waits = refl

abbrev far : NoiseStream
far = record (from_transport far_inner) {
  inner = record far_inner { arrivals = [] };
  received = 1;
  read_plain = text "llo";
}

far_reads : poll_read marked 100 2 waiting ≡ some (ready (text "he"), far)
unfolding poll_read refill pull try_decrypt_one_frame split_frame
far_reads = refl

far-Session : Session marked quiet far_inner far [] (text "he")
far-Session =
    read waiting far [] [] 100 2 (ready (text "he"))
      (read (from_transport far_inner) waiting [] [] 100 2 pending opened far_waits) far_reads

near_bytes : arriving far_inner.arrivals ≡ near.inner.wire ++ near.write_cipher
unfolding near poll_write encrypt_all encrypt flush_write_cipher flush chunks
near_bytes = refl

Session-duplex_example :
    ((rest : Bytes) × ([] ++ rest ≡ [])) × ((rest : Bytes) × (text "he" ++ rest ≡ text "hello"))
Session-duplex_example =
    Session-duplex marked marked quiet quiet near_inner far_inner near far (text "hello") [] []
      (text "he") marked-CipherLaws marked-CipherLaws quiet-MovesNothing quiet-MovesNothing refl
      refl refl near_bytes near-Session far-Session

near-Sent : Sent marked near (text "hello")
near-Sent =
    Session-Sent marked quiet near_inner near (text "hello") [] quiet-MovesNothing refl near-Session

poll_write-Sent_example :
    (((poll_write marked (text "!") near).0 ≡ pending)
      × ((poll_write marked (text "!") near).1.sent ≡ near.sent)
      × Sent marked (poll_write marked (text "!") near).1 (text "hello"))
    ⊎ ((e : IoError) × ((poll_write marked (text "!") near).0 ≡ failed e))
    ⊎ (((poll_write marked (text "!") near).0 ≡ ready 1)
        × Sent marked (poll_write marked (text "!") near).1 (text "hello!"))
poll_write-Sent_example = poll_write-Sent marked (text "!") near (text "hello") near-Sent

far_Received : Received marked marked (from_transport far_inner) [] (text "hello")
far_Received = record {
  left = text "hello" ∷ [];
  framed = (0 ∷ (text "hello" ++ padding), [], refl, refl, refl);
  whole = refl;
}

waiting-Received :
    Received marked marked waiting [] (text "hello")
    × (◌≢◌ {A = Poll Bytes} pending (failed invalid_data))
waiting-Received =
    poll_read-Received marked marked 100 2 (from_transport far_inner) waiting [] (text "hello")
      pending marked-CipherLaws far_Received far_waits

poll_read_total_example :
    (result : Poll Bytes) × (t : NoiseStream) × (poll_read marked 40 2 (from_transport far_inner)
      ≡ some (result, t))
poll_read_total_example = poll_read_total marked 40 2 (from_transport far_inner) (omega arith)

poll_read-delivers_example :
    (c : ℕ) × (out : Bytes) × (t : NoiseStream) × (poll_read marked 40 2 waiting
      ≡ some (ready (c ∷ out), t))
poll_read-delivers_example =
    poll_read-delivers marked marked 40 1 waiting [] (text "hello") (omega arith) marked-CipherLaws
      waiting-Received.0 (tt, tt) (λ e. cc (e))

-- A handshake whose messages are the numbers of the states that write them.
abbrev counting : Handshake ℕ ℕ
counting = record {
  write_message = λ h payload. some (h ∷ [], suc h);
  read_message = λ h m. some ([], suc h);
  into_transport_mode = λ h. some h;
}

abbrev counting-Agree : Agree counting 1 5 4 8
counting-Agree = record {
  m1 = 1 ∷ [];
  m2 = 6 ∷ [];
  m3 = 3 ∷ [];
  i1 = 2;
  i2 = 3;
  i3 = 4;
  r1 = 6;
  r2 = 7;
  r3 = 8;
  p1 = [];
  p2 = [];
  p3 = [];
  first = refl;
  first_read = refl;
  second = refl;
  second_read = refl;
  third = refl;
  third_read = refl;
  initiates = refl;
  responds = refl;
  short1 = omega arith;
  short2 = omega arith;
  short3 = omega arith;
}

connect-accept_example :
    (connect counting 1 (record { incoming = 0 ∷ 1 ∷ 6 ∷ 9 ∷ []; outgoing = [] })
      ≡ some (4, record { incoming = 9 ∷ []; outgoing = 0 ∷ 1 ∷ 1 ∷ 0 ∷ 1 ∷ 3 ∷ [] }))
    × (accept counting 5 (record { incoming = 0 ∷ 1 ∷ 1 ∷ 0 ∷ 1 ∷ 3 ∷ []; outgoing = [] })
        ≡ some (8, record { incoming = []; outgoing = 0 ∷ 1 ∷ 6 ∷ [] }))
connect-accept_example = connect-accept counting 1 5 4 8 (9 ∷ []) [] counting-Agree
