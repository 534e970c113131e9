-- ===== src/Core/Storage/Wal/Directory.antt =====
-- A directory of files in memory: the laws of `FileSystem` can hold.
use nendi.Common.{
  append-nil, ◌≡◌, ◌≢◌, refl, sym, ap, ◌∙◌, Bool, true, Bool-cases, inl, inr, some, [], ◌++◌, Bytes,
  Text, Dict, lookup, insert, remove, lookup-insert, lookup-insert_self, text_eq, text_eq_iff,
  text_eq_instance, map,
}
use nendi.Core.Storage.Wal.{or_empty, FileSystem}

abbrev pub Files : Type 0
Files = Dict Text Bytes

unfoldable pub add_to : Text → Bytes → Files → Bool × Files
add_to n bytes d = (true, insert n (or_empty (lookup n d) ++ bytes) d)

pub add_to_self :
    (n : Text) (bytes c : Bytes) (d : Files)
    → lookup n d ≡ some c
    → lookup n (add_to n bytes d).1 ≡ some (c ++ bytes)
unfolding add_to
add_to_self n bytes c d held =
    lookup-insert_self n (or_empty (lookup n d) ++ bytes) d
    ∙ ap (λ o. some (or_empty o ++ bytes)) held

pub add_to-other :
    (n m : Text) (bytes : Bytes) (d : Files) → m ≢ n → lookup m (add_to n bytes d).1 ≡ lookup m d
unfolding add_to
add_to-other n m bytes d ne = elim (Bool-cases (text_eq n m)) [
  | inl same ↦ absurd (ne (sym ((text_eq_iff n m).0 same)))
  | inr other ↦ lookup-insert n m (or_empty (lookup n d) ++ bytes) d ∙ rw other refl
]

pub add_nothing : (n : Text) (d : Files) → lookup n (add_to n [] d).1 ≡ some (or_empty (lookup n d))
unfolding add_to
add_nothing n d =
    lookup-insert_self n (or_empty (lookup n d) ++ []) d
    ∙ ap some (append-nil (or_empty (lookup n d)))

abbrev pub directory : FileSystem
directory = record {
  Fs = Files;
  open_append = λ n. add_to n [];
  write_all = add_to;
  sync_all = λ _ d. (true, d);
  read_dir = λ d. some (map (λ p. some (p.0)) d);
  remove_file = λ n d. (true, remove n d);
  content = λ n d. lookup n d;
  open_creates = λ n d _. add_nothing n d;
  open_keeps = λ n m d. add_to-other n m [] d;
  write_appends = λ n bytes c d held _. add_to_self n bytes c d held;
  write_keeps = add_to-other;
}
