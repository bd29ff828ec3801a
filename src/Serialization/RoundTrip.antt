-- ===== src/Serialization/RoundTrip.antt =====
-- A tree that source/serialization.c writes to a buffer is read back as it was.
use sdistr2020_group.Serialization.Frames.{
  buf, IsCarried, framed, frames_lem, length-framed, load_step, behind_length, buf_lem, message_of,
}
use sdistr2020_group.Serialization.Collected.{collect_entry_bufs_lem}
use sdistr2020_group.Message.{wrap_int}
use sdistr2020_group.Prelude.{false}
use mathlib.Core.List.{append_assoc, append-nil}
use sdistr2020_group.Prelude.{
  if◌then◌else◌, ℕ, zero, suc, ◌+◌, ◌^◌, ◌<◌, ◌≡◌, Option, some, List, [], ◌∷◌, ◌++◌, map, refl,
  sym, ap, ◌∙◌, arith, ℤ, pos, ◌+ℤ◌, pos_part, ltb, ltb_ℤ, drop, replicate, length, length-append,
  room, drop-append,
}
use sdistr2020_group.Entry.{Entry}
use sdistr2020_group.Message.{EntryMessage, to_int}
use sdistr2020_group.Tree.{Node, null, node, Tree, tree_create, tree_put}
use sdistr2020_group.Tree.Counters.{count}
use sdistr2020_group.Tree.Invariant.{IsValid}
use sdistr2020_group.Tree.Rebuild.{preorder, puts, puts-preorder, EachEntry, IsPut}
use sdistr2020_group.Serialization.{
  Codec, IsCodec, Buffer, no_buffer, frames, len_buffer, tree_to_buffer, loaded, load_entries,
  buffer_to_tree,
}

module _ (codec : Codec EntryMessage) (Wire : EntryMessage → Type 0)
    (law : IsCodec codec Wire) where
  -- The loop puts the entries whose bytes stand behind the index.
  load_entries_lem :
      (es : List Entry) (fuel size i : ℕ) (buffer done : List ℕ) (tree : Option Tree)
      → EachEntry (IsCarried codec Wire law) es
      → buffer ≡ done ++ frames (map (buf codec Wire law) es)
      → i ≡ length done
      → size ≡ length buffer
      → length (frames (map (buf codec Wire law) es)) < fuel
      → length buffer < 2 ^ 31
      → load_entries codec fuel buffer size tree i ≡ loaded (puts tree es)
  unfolding load_entries frames
  load_entries_lem es zero size i buffer done tree c b at n lt small = absurd (omega arith)
  load_entries_lem [] (suc fuel) size i buffer done tree c b at n lt small =
      let e : length buffer ≡ length done = ap length (b ∙ append-nil done) in
      let outside : ltb i size ≡ false = ground arith in ground (arith, outside)
  load_entries_lem (e ∷ es) (suc fuel) size i buffer done tree c b at n lt small =
      let rest = frames (map (buf codec Wire law) es) in
      let cut : buffer ≡ done ++ (framed codec Wire law e ++ rest) =
        b ∙ ap (λ xs. done ++ xs) (frames_lem codec Wire law e es c.0) in
      let long = ap length cut in
      load_step codec Wire law fuel size i buffer rest tree e c.0
        (ap (drop i) cut ∙ drop-append done _ i at)
        (ap (drop (i + 4)) cut ∙ behind_length codec Wire law done rest e i at)
        (omega (
          arith,
          long,
          length-append done (framed codec Wire law e ++ rest),
          length-append (framed codec Wire law e) rest,
          length-framed codec Wire law e,
        ))
        (omega (
          arith,
          long,
          length-append done (framed codec Wire law e ++ rest),
          length-append (framed codec Wire law e) rest,
          length-framed codec Wire law e,
        ))
        small
      ∙ load_entries_lem es fuel size (i + 4 + length (codec.pack (message_of codec Wire law e)))
          buffer (done ++ framed codec Wire law e) (tree_put tree e.key e.value).0 c.1
          (cut ∙ sym (append_assoc done (framed codec Wire law e) rest))
          (omega
            (arith, length-append done (framed codec Wire law e), length-framed codec Wire law e))
          n
          (omega (
            arith,
            ap length (frames_lem codec Wire law e es c.0),
            length-append (framed codec Wire law e) rest,
            length-framed codec Wire law e,
          ))
          small

  small_sum :
      (a b n : ℕ) → 4 + a + b ≡ n → n < 2 ^ 31 → wrap_int ((pos 4 +ℤ pos a) +ℤ pos b) ≡ pos n
  unfolding wrap_int to_int ◌+ℤ◌
  small_sum a b n e h = ground arith

  len_buffer_lem :
      (es : List Entry)
      → EachEntry (IsCarried codec Wire law) es
      → length (frames (map (buf codec Wire law) es)) < 2 ^ 31
      → len_buffer (map (buf codec Wire law) es)
        ≡ pos (length (frames (map (buf codec Wire law) es)))
  unfolding len_buffer
  len_buffer_lem [] c h = unfold frames in refl
  len_buffer_lem (e ∷ es) c h =
      let size_e = length (codec.pack (message_of codec Wire law e)) in
      let size = length (frames (map (buf codec Wire law) es)) in
      let long : length (frames (map (buf codec Wire law) (e ∷ es))) ≡ 4 + size_e + size =
        ap length (frames_lem codec Wire law e es c.0)
        ∙ length-append (framed codec Wire law e) (frames (map (buf codec Wire law) es))
        ∙ ap (λ n. n + size) (length-framed codec Wire law e) in
      ap (λ (b : Buffer). wrap_int ((pos 4 +ℤ b.1) +ℤ len_buffer (map (buf codec Wire law) es)))
        (buf_lem codec Wire law e c.0)
      ∙ ap (λ n. wrap_int ((pos 4 +ℤ pos size_e) +ℤ n)) (len_buffer_lem es c.1 (omega arith))
      ∙ small_sum size_e size _ (sym long) h

  -- The buffer of a valid tree: the entries one behind the other, each node before its children.
  tree_to_buffer_lem :
      (t : Tree) (junk : Buffer)
      → IsValid t
      → EachEntry (IsCarried codec Wire law) (preorder t.root)
      → length (frames (map (buf codec Wire law) (preorder t.root))) < 2 ^ 31
      → let bytes = frames (map (buf codec Wire law) (preorder t.root)) in
        tree_to_buffer codec junk (some t) ≡ (some bytes, pos (length bytes))
  unfolding tree_to_buffer
  tree_to_buffer_lem t junk v c h =
      let sized : replicate (pos_part t.size) junk ≡ room junk [] (count t.root) [] =
        ap (λ n. replicate n junk) (ap pos_part v.counted) ∙ sym (append-nil _) in
      let filled =
        (collect_entry_bufs_lem codec t.root junk [] [] (replicate (pos_part t.size) junk) 0 sized
          refl).0
        ∙ append-nil _ in
      let result = λ (bufs : List Buffer) (len : ℤ).
        if ltb_ℤ len (pos 0) then no_buffer else (some (frames bufs), len) in
      ap (λ bufs. result bufs (len_buffer bufs)) filled
      ∙ ap (result (map (buf codec Wire law) (preorder t.root)))
          (len_buffer_lem (preorder t.root) c h)
      ∙ ground arith

  not_empty :
      (bytes : List ℕ) (n : ℕ)
      → 0 < n
      → buffer_to_tree codec (some bytes) (pos n)
        ≡ load_entries codec (suc n) bytes n (some tree_create) 0
  unfolding buffer_to_tree
  not_empty bytes zero h = absurd (omega arith)
  not_empty bytes (suc n) h = refl

  some_bytes :
      (t : Node) (e : Entry) (l r : Node)
      → t ≡ node e l r
      → EachEntry (IsCarried codec Wire law) (preorder t)
      → 0 < length (frames (map (buf codec Wire law) (preorder t)))
  some_bytes null e l r h c = absurd (ground arith)
  some_bytes (node e' l' r') e l r h c = omega (
    arith,
    ap length (frames_lem codec Wire law e' (preorder l' ++ preorder r') c.0),
    length-append (framed codec Wire law e')
        (frames (map (buf codec Wire law) (preorder l' ++ preorder r'))),
    length-framed codec Wire law e',
  )

  accepted_entries :
      (es : List Entry) → EachEntry (IsCarried codec Wire law) es → EachEntry IsPut es
  accepted_entries [] c = tt
  accepted_entries (e ∷ es) c = (c.0.put, accepted_entries es c.1)

  -- A valid tree that is not empty comes back from its buffer as it was, node by node, when the
  -- message of each entry keeps to the format and the whole buffer is no longer than an `int` counts.
  -- What stood in the arrays does not show.
  pub buffer_to_tree-tree_to_buffer :
      (t : Tree) (e : Entry) (l r : Node) (junk : Buffer)
      → IsValid t
      → t.root ≡ node e l r
      → EachEntry (IsCarried codec Wire law) (preorder t.root)
      → length (frames (map (buf codec Wire law) (preorder t.root))) < 2 ^ 31
      → let (buffer, size) = tree_to_buffer codec junk (some t) in
        buffer_to_tree codec buffer size ≡ loaded (some t)
  buffer_to_tree-tree_to_buffer t e l r junk v h c lt =
      let bytes = frames (map (buf codec Wire law) (preorder t.root)) in
      ap (λ (b : Buffer). buffer_to_tree codec b.0 b.1) (tree_to_buffer_lem t junk v c lt)
      ∙ not_empty bytes (length bytes) (some_bytes t.root e l r h c)
      ∙ load_entries_lem (preorder t.root) (suc (length bytes)) (length bytes) 0 bytes []
          (some tree_create) c refl refl refl (omega arith) lt
      ∙ ap loaded (puts-preorder t v (accepted_entries (preorder t.root) c))
