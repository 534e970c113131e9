-- ===== src/Http/Dlq/Newest.antt =====
-- What a dead letter queue holds after any pushes.
use nendi.Common.{
  ℕ, zero, suc, ◌-◌, ◌<◌, ◌≤◌, ◌≡◌, refl, sym, arith, Bool-cases, inl, inr, List, [], ◌∷◌, ◌++◌,
  append_assoc, append-nil, length, length-append, length-drop, drop, ◌*◌, ◌^◌, true, fits_capacity,
  leb, if◌then◌else◌,
}
use nendi.Common.Cursor.{ok}
use nendi.Http.Dlq.{DlqEntry, DeadLetterQueue, new, push}

unfoldable pub push_entry : DlqEntry → DeadLetterQueue → DeadLetterQueue
push_entry e d = push e.timestamp_us e.event e.error e.attempts d

unfoldable pub push_entries : List DlqEntry → DeadLetterQueue → DeadLetterQueue
push_entries [] d = d
push_entries (e ∷ es) d = push_entries es (push_entry e d)

-- The last `n` elements, or all.
unfoldable pub newest {ℓ} : {A : Type ℓ} → ℕ → List A → List A
newest n xs = drop (length xs - n) xs

drop_over {ℓ} :
    {A : Type ℓ} (n : ℕ) (xs ys : List A) → n ≤ length xs → drop n (xs ++ ys) ≡ drop n xs ++ ys
drop_over zero xs ys h = refl
drop_over (suc n) [] ys h = absurd (omega arith)
drop_over (suc n) (x ∷ xs) ys h = drop_over n xs ys (omega arith)

drop_one-drop {ℓ} : {A : Type ℓ} (n : ℕ) (xs : List A) → drop 1 (drop n xs) ≡ drop (suc n) xs
drop_one-drop zero xs = refl
drop_one-drop (suc n) [] = refl
drop_one-drop (suc n) (x ∷ xs) = drop_one-drop n xs

-- One more element pushes the oldest of a full window out.
newest-snoc {ℓ} :
    {A : Type ℓ} (n : ℕ) (xs : List A) (x : A)
    → 0 < n
    → newest n (xs ++ (x ∷ []))
      ≡ (if leb n (length (newest n xs)) then drop 1 (newest n xs) else newest n xs) ++ (x ∷ [])
unfolding newest
newest-snoc n xs x h = elim (Bool-cases (leb n (length (drop (length xs - n) xs)))) [
  | inl full ↦
      rw (full, if◌then◌else◌, drop_one-drop)
        (let e : length (xs ++ (x ∷ [])) - n ≡ suc (length xs - n) =
            ground (arith, length-append xs (x ∷ []), length-drop (length xs - n) xs) in
          rw e (
            drop_over (suc (length xs - n)) xs (x ∷ [])
              (ground (arith, length-drop (length xs - n) xs))))
  | inr room ↦
      rw (room, if◌then◌else◌)
        (let e : length (xs ++ (x ∷ [])) - n ≡ length xs - n =
            ground (arith, length-append xs (x ∷ []), length-drop (length xs - n) xs) in
          rw e (drop_over (length xs - n) xs (x ∷ []) (omega arith)))
]

drop-nil : (n : ℕ) → drop {A = DlqEntry} n [] ≡ []
drop-nil zero = refl
drop-nil (suc n) = refl

newest_from :
    (es seen : List DlqEntry) (d : DeadLetterQueue)
    → 0 < d.max_size
    → d.queue ≡ newest d.max_size seen
    → (push_entries es d).queue ≡ newest d.max_size (seen ++ es)
unfolding push_entries push_entry push
newest_from [] seen d h q = rw append-nil q
newest_from (e ∷ es) seen d h q = rw append_assoc at (
    newest_from es (seen ++ (e ∷ [])) (push_entry e d) h
      (rw q (sym (newest-snoc d.max_size seen e h))))

-- A queue with room for one entry at least, whose entries do not overflow the capacity of a vector,
-- is made, and holds after any pushes the newest entries, as many as have room, oldest first.
pub queue-push_entries :
    (size_of_entry max_size : ℕ) (es : List DlqEntry)
    → 0 < max_size
    → max_size * size_of_entry < 2 ^ 63
    → (d : DeadLetterQueue) × (new size_of_entry max_size ≡ ok d)
      × ((push_entries es d).queue ≡ newest max_size es)
unfolding new newest
queue-push_entries size_of_entry max_size es h room =
    let fits : fits_capacity size_of_entry max_size ≡ true = ground arith in
    let d : DeadLetterQueue = record { queue = []; max_size = max_size; total_entries = 0 } in
    (d, rw fits refl, newest_from es [] d h (sym (drop-nil (0 - max_size))))
