-- ===== src/Expression/RoundTrip.antt =====
-- What is written in an expression reads back.
use blast_radius.Base.{
  ℕ, zero, suc, ◌+◌, ◌*◌, ◌≤◌, ◌<◌, ◌≡◌, refl, sym, ap, ◌∙◌, Bool, true, false, nat_eq, list_eq,
  List, ◌∷◌, ◌++◌, length, ok, arith, elem, IsNodup,
}
use blast_radius.Expression.Lexer.{Text}
use blast_radius.Expression.Reader.{
  Datum, Data, Entries, null, bool, number, policy_string, list, object, nil, cons, end, entry,
  append, set, read_value, read_object, read_list,
}
use blast_radius.Expression.Sizes.{size, size_data, size_entries, depth, depth_data, depth_entries}
use blast_radius.Expression.Written.{
  write, write_data, write_entries, keys, IsPlain, ArePlain, AllPlain, stops, lstrip-write, join,
  join-nil, join-append, join_entries, join_entries-end, join_entries-set,
}
use blast_radius.Expression.Leaves.{reader}
use blast_radius.Expression.Steps.{
  keys_set-fresh, elem-later, elem-first, opened-value, member-read, entry-read, leaf-write,
  list-at, object-at, data-length, data-append, entries-length, entries-append, list-length,
  object-length, nil-read, end-read,
}

module _ (is_traversal : Text → Bool) (traversal_addresses : Text → List Text) where
  mutual
    value-write :
        (fuel d n : ℕ) (v : Datum) (rest : Text) (ps : List Text)
        → 2 * length (write v) < fuel
        → stops rest ≡ true
        → IsPlain v
        → n + size v ≤ 2000
        → depth v + d ≤ 64
        → read_value is_traversal traversal_addresses fuel d (reader (write v ++ rest) ps n)
          ≡ ok (v, reader rest ps (n + size v))
    value-write zero d n v rest ps f h p m k = absurd (omega arith)
    value-write (suc fuel) d n (list vs) rest ps f h p m k =
        opened-value is_traversal traversal_addresses fuel d n (write (list vs) ++ rest) ps
          (omega arith) (omega arith) (lstrip-write (list vs) rest p)
        ∙ list-at is_traversal traversal_addresses _ _ vs rest _
        ∙ data-write fuel d (n + 1) nil vs rest ps
            (let l = list-length is_traversal traversal_addresses vs in omega arith) p (omega arith)
            (omega arith)
        ∙ ap (λ i. ok (list vs, reader rest ps i)) (omega arith)
    value-write (suc fuel) d n (object es) rest ps f h p m k =
        opened-value is_traversal traversal_addresses fuel d n (write (object es) ++ rest) ps
          (omega arith) (omega arith) (lstrip-write (object es) rest p)
        ∙ object-at is_traversal traversal_addresses _ _ es rest _
        ∙ entries-write fuel d (n + 1) end es rest ps
            (let l = object-length is_traversal traversal_addresses es in omega arith) p.1
            (λ key _. refl) p.0 (omega arith) (omega arith)
        ∙ ap (λ i. ok (object es, reader rest ps i)) (omega arith)
    value-write (suc fuel) d n null rest ps f h p m k =
        leaf-write is_traversal traversal_addresses fuel d n null rest ps h p refl (omega arith)
          (omega arith)
    value-write (suc fuel) d n (bool b) rest ps f h p m k =
        leaf-write is_traversal traversal_addresses fuel d n (bool b) rest ps h p refl (omega arith)
          (omega arith)
    value-write (suc fuel) d n (number s) rest ps f h p m k =
        leaf-write is_traversal traversal_addresses fuel d n (number s) rest ps h p refl
          (omega arith) (omega arith)
    value-write (suc fuel) d n (policy_string s xs) rest ps f h p m k =
        leaf-write is_traversal traversal_addresses fuel d n (policy_string s xs) rest ps h p refl
          (omega arith) (omega arith)

    data-write :
        (fuel d n : ℕ) (acc vs : Data) (rest : Text) (ps : List Text)
        → 2 * length (write_data vs) + 1 < fuel
        → ArePlain vs
        → n + size_data vs ≤ 2000
        → depth_data vs + d ≤ 64
        → read_list is_traversal traversal_addresses fuel d acc
            (reader (write_data vs ++ rest) ps n)
          ≡ ok (list (join acc vs), reader rest ps (n + size_data vs))
    data-write zero d n acc vs rest ps f p m k = absurd (omega arith)
    data-write (suc fuel) d n acc nil rest ps f p m k =
        nil-read is_traversal traversal_addresses fuel d n acc rest ps
        ∙ ap (λ ws. ok (list ws, reader rest ps n)) (sym (join-nil acc))
        ∙ ap (λ i. ok (list (join acc nil), reader rest ps i)) (omega arith)
    data-write (suc fuel) d n acc (cons v vs) rest ps f p m k =
        let u = write_data vs ++ rest in
        let l = data-length is_traversal traversal_addresses v vs in
        ap (λ t. read_list is_traversal traversal_addresses (suc fuel) d acc (reader t ps n))
          (data-append is_traversal traversal_addresses v vs rest)
        ∙ member-read is_traversal traversal_addresses fuel d n (n + size v) acc v u ps p.0 (
            value-write fuel (d + 1) n v (b',' ∷ u) ps (omega arith) refl p.0 (omega arith)
              (omega arith))
        ∙ data-write fuel d (n + size v) (append acc v) vs rest ps (omega arith) p.1 (omega arith)
            (omega arith)
        ∙ ap (λ ws. ok (list ws, reader rest ps (n + size v + size_data vs))) (join-append acc v vs)
        ∙ ap (λ i. ok (list (join acc (cons v vs)), reader rest ps i)) (omega arith)

    entries-write :
        (fuel d n : ℕ) (acc es : Entries) (rest : Text) (ps : List Text)
        → 2 * length (write_entries es) + 1 < fuel
        → AllPlain es
        → ((key : Text) → elem key (keys es) ≡ true → elem key (keys acc) ≡ false)
        → IsNodup (keys es)
        → n + size_entries es ≤ 2000
        → depth_entries es + d ≤ 64
        → read_object is_traversal traversal_addresses fuel d acc
            (reader (write_entries es ++ rest) ps n)
          ≡ ok (object (join_entries acc es), reader rest ps (n + size_entries es))
    entries-write zero d n acc es rest ps f p q o m k = absurd (omega arith)
    entries-write (suc fuel) d n acc end rest ps f p q o m k =
        end-read is_traversal traversal_addresses fuel d n acc rest ps
        ∙ ap (λ fs. ok (object fs, reader rest ps n)) (sym (join_entries-end acc))
        ∙ ap (λ i. ok (object (join_entries acc end), reader rest ps i)) (omega arith)
    entries-write (suc fuel) d n acc (entry key v es) rest ps f p q o m k =
        let u = write_entries es ++ rest in
        let l = entries-length is_traversal traversal_addresses key v es in
        ap (λ t. read_object is_traversal traversal_addresses (suc fuel) d acc (reader t ps n))
          (entries-append is_traversal traversal_addresses key v es rest)
        ∙ entry-read is_traversal traversal_addresses fuel d n (n + size v) acc key v u ps (
            value-write fuel (d + 1) n v (b',' ∷ u) ps (omega arith) refl p.0 (omega arith)
              (omega arith))
        ∙ entries-write fuel d (n + size v) (set key v acc) es rest ps (omega arith) p.1
            (λ j h. keys_set-fresh j key v acc es o.0 h (q j (elem-later j key (keys es) h))) o.1
            (omega arith) (omega arith)
        ∙ ap (λ fs. ok (object fs, reader rest ps (n + size v + size_entries es)))
            (join_entries-set acc key v es (q key (elem-first key (keys es))))
        ∙ ap (λ i. ok (object (join_entries acc (entry key v es)), reader rest ps i)) (omega arith)
