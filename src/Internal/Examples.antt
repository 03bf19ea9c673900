-- ===== src/Internal/Examples.antt =====
-- Requests between two small sites.
use shardscape.Base.{
  ◌≡◌, refl, ◌⊎◌, inl, inr, List, [], ◌∷◌, Bytes, text, Option, some, none, ok, err, panic, list_eq,
  nat_eq, list_beq,
}
use shardscape.Distributed.Cycle.{SweepTimes}
use shardscape.Distributed.Local.{local_blob}
use shardscape.Fixtures.{site_a, short_crates, empty_site, unreachable}
use shardscape.Internal.{Request, Settings, Response, says, handle_internal_request}
use shardscape.Internal.Join.{gossip_membership}
use shardscape.Internal.Lossy.{from_utf8_lossy}
use shardscape.Internal.Query.{percent_decode, decode_bytes, escaped, hex_pair}
use shardscape.Internal.Guarded.{Changing, handle_internal_request-guarded}
use shardscape.Internal.Gossip.{Grows, Knows, gossip_membership-Grows}
use shardscape.Policy.{Policy}

abbrev settings : Settings
settings = record {
  cluster_secret = text "s";
  local_location_id = text "a";
  advertise_addr = text "http://a";
}

abbrev times : SweepTimes
times = record { now = 9; grace_seconds = 60; sighted = λ h. 9 }

-- The `+` of an address is read as a space.
plus_address : percent_decode (text "a+b") ≡ ok (text "a b")
unfolding percent_decode decode_bytes from_utf8_lossy
plus_address = refl

-- A sign is taken as a digit.
signed_escape : percent_decode (text "%+4") ≡ ok (4 ∷ [])
unfolding percent_decode decode_bytes escaped hex_pair from_utf8_lossy
signed_escape = refl

-- An escape whose second digit is the first byte of a character.
cut_character : percent_decode (b'%' ∷ b'4' ∷ 0xc3 ∷ 0xa9 ∷ []) ≡ err panic
unfolding percent_decode decode_bytes escaped hex_pair
cut_character = refl

abbrev wrong : Request
wrong = record { secret = some (text "t"); path = text "/internal/gc/force"; query = none }

abbrev unauthorized : Response Policy
unauthorized = says 401 (text "Unauthorized")

turned_away :
    handle_internal_request short_crates local_blob unreachable 9 times settings wrong empty_site
    ≡ ok (unauthorized, empty_site)
unfolding handle_internal_request list_beq
turned_away = refl

handle_internal_request-guarded_example :
    ((unauthorized ≡ says 401 (text "Unauthorized")) × (empty_site ≡ empty_site))
    ⊎ ((wrong.secret ≡ some settings.cluster_secret)
        × ((empty_site ≡ empty_site) ⊎ Changing wrong.path))
handle_internal_request-guarded_example =
    handle_internal_request-guarded short_crates local_blob unreachable 9 times settings wrong
      empty_site empty_site unauthorized turned_away

-- Site b answers with itself and c.
abbrev listed : Bytes → Option (List (Bytes × Bytes))
listed url = some ((text "b", text "http://b") ∷ (text "c", text "http://c") ∷ [])

gossip_membership-Grows_example :
    Grows site_a (gossip_membership listed site_a 9 ((text "b", text "http://b") ∷ []))
    × ((text "c" ≡ site_a.local_location_id)
        ⊎ Knows (gossip_membership listed site_a 9 ((text "b", text "http://b") ∷ [])) (text "c"))
gossip_membership-Grows_example =
    gossip_membership-Grows listed site_a 9 ((text "b", text "http://b") ∷ []) (text "b")
      (text "http://b") (text "c") (text "http://c")
      ((text "b", text "http://b") ∷ (text "c", text "http://c") ∷ []) (inl refl) refl
      (inr (inl refl))
