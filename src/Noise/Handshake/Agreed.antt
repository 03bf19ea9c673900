-- ===== src/Noise/Handshake/Agreed.antt =====
-- Two handshakes at the ends of one connection.
use shardscape.Base.{
  ◌^◌, ◌<◌, ◌/◌, ◌%◌, ltb, ◌≡◌, refl, true, false, [], ◌++◌, append_assoc, Bytes, some, length,
  take-append_length, drop-append_length, length-append, arith,
}
use shardscape.Noise.{u16_be, from_be}
use shardscape.Noise.Handshake.{
  Handshake, Pipe, recv_frame, send_frame, writes, reads, finish, accept, connect,
}

abbrev pub frame : Bytes → Bytes
frame bytes = u16_be (length bytes) ++ bytes

send_frame-short :
    (pipe : Pipe) (bytes : Bytes)
    → length bytes < 2 ^ 16
    → send_frame pipe bytes ≡ some (record pipe { outgoing = pipe.outgoing ++ frame bytes })
unfolding send_frame
send_frame-short pipe bytes h =
    let short : ltb (length bytes) (2 ^ 16) ≡ true = ground arith in rw short refl

recv_frame-frame :
    (bytes rest outgoing : Bytes)
    → length bytes < 2 ^ 16
    → recv_frame (record { incoming = frame bytes ++ rest; outgoing = outgoing })
      ≡ some (bytes, record { incoming = rest; outgoing = outgoing })
unfolding recv_frame
recv_frame-frame bytes rest outgoing h =
    let size : from_be (length bytes % 2 ^ 16 / 256) (length bytes % 256) ≡ length bytes =
      omega (arith, h) in
    let whole : ltb (length (bytes ++ rest)) (length bytes) ≡ false =
      ground (arith, length-append bytes rest) in
    rw size (rw whole (rw (take-append_length bytes rest, drop-append_length bytes rest) refl))

module _ {H T : Type 0} (noise : Handshake H T) where
  -- What Noise promises of two states with the same pre-shared key: the three messages of the pattern go
  -- through, and each has at most 65535 bytes.
  pub record Agree (initiator responder : H) (t_initiator t_responder : T) : Type 0 where
    pub m1 : Bytes
    pub m2 : Bytes
    pub m3 : Bytes
    pub i1 : H
    pub i2 : H
    pub i3 : H
    pub r1 : H
    pub r2 : H
    pub r3 : H
    pub p1 : Bytes
    pub p2 : Bytes
    pub p3 : Bytes
    pub first : noise.write_message initiator [] ≡ some (m1, i1)
    pub first_read : noise.read_message responder m1 ≡ some (p1, r1)
    pub second : noise.write_message r1 [] ≡ some (m2, r2)
    pub second_read : noise.read_message i1 m2 ≡ some (p2, i2)
    pub third : noise.write_message i2 [] ≡ some (m3, i3)
    pub third_read : noise.read_message r2 m3 ≡ some (p3, r3)
    pub initiates : noise.into_transport_mode i3 ≡ some t_initiator
    pub responds : noise.into_transport_mode r3 ≡ some t_responder
    pub short1 : length m1 < 2 ^ 16
    pub short2 : length m2 < 2 ^ 16
    pub short3 : length m3 < 2 ^ 16

  writes_one :
      (h next : H) (m incoming outgoing : Bytes)
      → noise.write_message h [] ≡ some (m, next)
      → length m < 2 ^ 16
      → writes noise (h, record { incoming = incoming; outgoing = outgoing })
        ≡ some (next, record { incoming = incoming; outgoing = outgoing ++ frame m })
  unfolding writes
  writes_one h next m incoming outgoing w short =
      rw (w)
        (rw (send_frame-short (record { incoming = incoming; outgoing = outgoing }) m short) refl)

  reads_one :
      (h next : H) (m payload rest outgoing : Bytes)
      → noise.read_message h m ≡ some (payload, next)
      → length m < 2 ^ 16
      → reads noise (h, record { incoming = frame m ++ rest; outgoing = outgoing })
        ≡ some (next, record { incoming = rest; outgoing = outgoing })
  unfolding reads
  reads_one h next m payload rest outgoing r short =
      rw (recv_frame-frame m rest outgoing short) (rw r refl)

  -- What is on the wire.
  abbrev pub to_initiator : {i r : H} {t u : T} → Agree i r t u → Bytes
  to_initiator a = frame a.m2

  abbrev pub to_responder : {i r : H} {t u : T} → Agree i r t u → Bytes
  to_responder a = frame a.m1 ++ frame a.m3

  connects :
      (initiator responder : H) (t_initiator t_responder : T) (behind : Bytes)
      (a : Agree initiator responder t_initiator t_responder)
      → connect noise initiator (record { incoming = to_initiator a ++ behind; outgoing = [] })
        ≡ some (t_initiator, record { incoming = behind; outgoing = to_responder a })
  unfolding connect finish
  connects initiator responder t_initiator t_responder behind a =
      let one = writes_one initiator a.i1 a.m1 (frame a.m2 ++ behind) [] a.first a.short1 in
      let two = reads_one a.i1 a.i2 a.m2 a.p2 behind (frame a.m1) a.second_read a.short2 in
      let three = writes_one a.i2 a.i3 a.m3 behind (frame a.m1) a.third a.short3 in
      rw one (rw two (rw three (rw (a.initiates) refl)))

  accepts :
      (initiator responder : H) (t_initiator t_responder : T) (ahead : Bytes)
      (a : Agree initiator responder t_initiator t_responder)
      → accept noise responder (record { incoming = to_responder a ++ ahead; outgoing = [] })
        ≡ some (t_responder, record { incoming = ahead; outgoing = to_initiator a })
  unfolding accept finish
  accepts initiator responder t_initiator t_responder ahead a =
      let one = reads_one responder a.r1 a.m1 a.p1 (frame a.m3 ++ ahead) [] a.first_read a.short1 in
      let two = writes_one a.r1 a.r2 a.m2 (frame a.m3 ++ ahead) [] a.second a.short2 in
      let three = reads_one a.r2 a.r3 a.m3 a.p3 ahead (frame a.m2) a.third_read a.short3 in
      rw (append_assoc (frame a.m1) (frame a.m3) ahead)
        (rw one (rw two (rw three (rw (a.responds) refl))))

  -- Where Noise lets the three messages through, the two ends complete the handshake on each other's bytes: each reads exactly what the other has written, and leaves whatever comes behind it for the stream of frames.
  pub connect-accept :
      (initiator responder : H) (t_initiator t_responder : T) (behind ahead : Bytes)
      (a : Agree initiator responder t_initiator t_responder)
      → (connect noise initiator (record { incoming = to_initiator a ++ behind; outgoing = [] })
          ≡ some (t_initiator, record { incoming = behind; outgoing = to_responder a }))
        × (accept noise responder (record { incoming = to_responder a ++ ahead; outgoing = [] })
            ≡ some (t_responder, record { incoming = ahead; outgoing = to_initiator a }))
  connect-accept initiator responder t_initiator t_responder behind ahead a = (
    connects initiator responder t_initiator t_responder behind a,
    accepts initiator responder t_initiator t_responder ahead a,
  )
