-- ===== src/Serialization/Collected.antt =====
-- The arrays that `tree_to_buffer` of source/serialization.c fills with the buffers of the entries.
use mathlib.Core.List.{append_assoc, map-append}
use sdistr2020_group.Prelude.{
  ℕ, ◌+◌, ◌≡◌, some, List, [], ◌∷◌, ◌++◌, map, refl, sym, ap, ◌∙◌, arith, set, replicate, length,
  length-append, length-map, room, set-append, replicate-append,
}
use sdistr2020_group.Entry.{Entry}
use sdistr2020_group.Message.{EntryMessage}
use sdistr2020_group.Tree.{Node, null, node}
use sdistr2020_group.Tree.Counters.{count}
use sdistr2020_group.Tree.Rebuild.{preorder}
use sdistr2020_group.Serialization.{Codec, Buffer, entry_to_buffer, collect_entry_bufs}

length-preorder : (t : Node) → length (preorder t) ≡ count t
length-preorder null = refl
length-preorder (node e l r) =
    omega (arith, length-append (preorder l) (preorder r), length-preorder l, length-preorder r)

module _ (codec : Codec EntryMessage) where
  abbrev buf : Entry → Buffer
  buf e = entry_to_buffer codec (some e)

  -- The arrays hold the buffers of the entries, each node before its children.
  pub collect_entry_bufs_lem :
      (t : Node) (junk : Buffer) (done rest array : List Buffer) (i : ℕ)
      → array ≡ room junk done (count t) rest
      → i ≡ length done
      → ((collect_entry_bufs codec t array i).0 ≡ done ++ (map buf (preorder t) ++ rest))
        × ((collect_entry_bufs codec t array i).1 ≡ i + count t)
  unfolding collect_entry_bufs
  collect_entry_bufs_lem null junk done rest array i h e = (h, omega arith)
  collect_entry_bufs_lem (node e l r) junk done rest array i h at_end =
      let b = buf e in
      let room_r = replicate (count r) junk ++ rest in
      let written : set array i b ≡ room junk (done ++ (b ∷ [])) (count l) room_r =
        ap (λ xs. set xs i b) h
        ∙ set-append done (replicate (count l + count r) junk ++ rest) junk b i at_end
        ∙ ap (λ xs. done ++ (b ∷ (xs ++ rest)))
            (replicate-append junk (count l + count r) (count l) (count r) refl)
        ∙ ap (λ xs. done ++ (b ∷ xs)) (append_assoc (replicate (count l) junk) _ _)
        ∙ sym (append_assoc done (b ∷ []) _) in
      let low =
        collect_entry_bufs_lem l junk (done ++ (b ∷ [])) room_r (set array i b) (i + 1) written
          (omega (arith, length-append done (b ∷ []))) in
      let done' = (done ++ (b ∷ [])) ++ map buf (preorder l) in
      let array' = (collect_entry_bufs codec l (set array i b) (i + 1)).0 in
      let high =
        collect_entry_bufs_lem r junk done' rest array'
          (collect_entry_bufs codec l (set array i b) (i + 1)).1
          (low.0 ∙ sym (append_assoc (done ++ (b ∷ [])) (map buf (preorder l)) room_r))
          (omega (
            arith,
            low.1,
            length-append (done ++ (b ∷ [])) (map buf (preorder l)),
            length-append done (b ∷ []),
            length-map buf (preorder l),
            length-preorder l,
          )) in
      (high.0 ∙ simp (append_assoc, map-append), omega (arith, low.1, high.1))
