-- ===== src/Sync/Examples.antt =====
-- A pull of two facts.
use shardscape.Base.{
  ◌≡◌, refl, inl, inr, false, List, [], ◌∷◌, text, ltb_ℤ, ok, arith, ℤ, pos, negsuc, Option, some,
  none, take, drop,
}
use shardscape.Fixtures.{Doc, plain_crates, site_a, put_fact, delete_fact}
use shardscape.Policy.{Policy}
use shardscape.Store.{Store, FactRecord}
use shardscape.Store.Facts.{apply_fact, get_cursor}
use shardscape.Store.Convergence.{apply_all}
use shardscape.Sync.{sync_page, sync_peer, fact_sync_batch}
use shardscape.Table.{lookup}
use shardscape.Sync.Ends.{sync_peer_ends}
use shardscape.Sync.Pull.{Applies, at_time, sync_page-passes}

abbrev facts : List (FactRecord Policy)
facts = put_fact ∷ delete_fact ∷ []

pulled : (t : Store Doc) × (apply_all plain_crates site_a (at_time plain_crates 9 facts) ≡ ok t)
unfolding apply_all apply_fact
pulled = (_, refl)

delete_fact-Applies : Applies plain_crates 9 delete_fact
unfolding apply_fact
delete_fact-Applies s = (_, refl)

sync_page-passes_example :
    ltb_ℤ (get_cursor (sync_page plain_crates site_a 9 (text "b") facts) (text "b")) put_fact.seq
    ≡ false
sync_page-passes_example =
    sync_page-passes plain_crates site_a 9 (text "b") facts put_fact delete_fact (inr (inl refl))
      delete_fact-Applies (omega arith)

put_fact-Applies : Applies plain_crates 9 put_fact
unfolding apply_fact
put_fact-Applies s = (_, refl)

-- The answers of a peer whose log is the two facts.
abbrev peer_answers : ℤ → Option (List (FactRecord Policy))
peer_answers (pos n) = some (take fact_sync_batch (drop n facts))
peer_answers (negsuc n) = none

sync_peer_ends_example :
    (t : Store Doc) × (sync_peer plain_crates 3 peer_answers site_a 9 (text "b") ≡ ok t)
    × (get_cursor t (text "b") ≡ pos 2)
unfolding get_cursor lookup
sync_peer_ends_example =
    sync_peer_ends plain_crates peer_answers facts 3 site_a 9 (text "b") 0 (λ n. refl)
      (refl, (refl, tt)) (put_fact-Applies, (delete_fact-Applies, tt)) refl (omega arith)
