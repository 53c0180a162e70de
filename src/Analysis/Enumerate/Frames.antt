-- ===== src/Analysis/Enumerate/Frames.antt =====
-- One turn of the enumeration as a step relation, and the rule for what every turn keeps.
use blast_radius.Base.{
  ℕ, zero, suc, ◌+◌, ◌≡◌, refl, sym, subst, ap, ◌∙◌, String, Bool, true, false, not, ◌||◌, ◌==◌,
  ==_iff, string_eq, list_eq, some, List, [], ◌∷◌, ◌++◌, elem, keep, length, leb, Bool-cases,
  Option-cases, ◌||◌, ◌≢◌, ok, ◌>>=◌, >>=-eq-ok, arith, List-cases, inl, inr, ◌⊎◌,
}
use blast_radius.Models.{AttackPath}
use blast_radius.Graph.{Graph}
use blast_radius.Analysis.Outcome.{build_attack_path}
use blast_radius.Analysis.Bfs.{adjacency, max_path_depth}
use blast_radius.Analysis.Enumerate.{
  Dfs, Frame, retreat, emit, cap_target, consider, advance, turn, dfs_loop, rev_onto, out_of_budget,
}

abbrev pub key_of : String → Dfs → List String
key_of target s = rev_onto s.route (target ∷ [])

-- What one turn can do. A turn that takes a neighbour `m` from the top iterator leaves `ms` in it.
pub data Turned (g : Graph) (target : String) (s : Dfs) : Dfs → Type 0 where
  spent : out_of_budget s ≡ true → Turned g target s (record s { truncated = true })
  popped :
      (k n : String) (rest : List Frame) (route : List String)
      → out_of_budget s ≡ false
      → s.stack ≡ (k, []) ∷ rest
      → s.route ≡ n ∷ route
      → Turned g target s (record s {
        path_work = s.path_work + 1;
        stack = rest;
        route = route;
        visited = keep (λ v. not (v == n)) s.visited;
      })
  skipped :
      (k m : String) (ms : List String) (rest : List Frame)
      → out_of_budget s ≡ false
      → s.stack ≡ (k, m ∷ ms) ∷ rest
      → elem m s.visited ≡ true
      → Turned g target s (record s { path_work = s.path_work + 1; stack = (k, ms) ∷ rest })
  repeated :
      (k m : String) (ms : List String) (rest : List Frame) (cut : Bool)
      → out_of_budget s ≡ false
      → s.stack ≡ (k, m ∷ ms) ∷ rest
      → m ≡ target
      → elem (key_of target s) s.emitted ≡ true
      → (s.truncated ≡ true → cut ≡ true)
      → Turned g target s
          (record s { path_work = s.path_work + 1; stack = (k, ms) ∷ rest; truncated = cut })
  found :
      (k m : String) (ms : List String) (rest : List Frame) (p : AttackPath) (cut : Bool)
      → out_of_budget s ≡ false
      → s.stack ≡ (k, m ∷ ms) ∷ rest
      → m ≡ target
      → elem (key_of target s) s.emitted ≡ false
      → build_attack_path g (key_of target s) ≡ ok p
      → (s.truncated ≡ true → cut ≡ true)
      → Turned g target s (record s {
        path_work = s.path_work + 1;
        stack = (k, ms) ∷ rest;
        emitted = s.emitted ++ key_of target s ∷ [];
        paths = s.paths ++ p ∷ [];
        truncated = cut;
      })
  too_deep :
      (k m : String) (ms : List String) (rest : List Frame)
      → out_of_budget s ≡ false
      → s.stack ≡ (k, m ∷ ms) ∷ rest
      → Turned g target s
          (record s { path_work = s.path_work + 1; stack = (k, ms) ∷ rest; truncated = true })
  pushed :
      (k m : String) (ms ns : List String) (rest : List Frame)
      → out_of_budget s ≡ false
      → s.stack ≡ (k, m ∷ ms) ∷ rest
      → elem m s.visited ≡ false
      → (m == target) ≡ false
      → leb max_path_depth (length s.route) ≡ false
      → adjacency g m ≡ some ns
      → Turned g target s (record s {
        path_work = s.path_work + 1;
        stack = (m, ns) ∷ (k, ms) ∷ rest;
        route = m ∷ s.route;
        visited = m ∷ s.visited;
      })

module _ (g : Graph) (target : String) where
  Turned-result :
      (s t : Dfs) (r : Dfs × Bool) → Turned g target s t → t ≡ r.0 → Turned g target s r.0
  Turned-result s t r x e = subst (Turned g target s) e x

  emit-eq-ok :
      (key : List String) (s t : Dfs)
      → emit g key s ≡ ok t
      → (elem key s.emitted ≡ true) × (t ≡ s)
        ⊎ ((p : AttackPath) × (elem key s.emitted ≡ false)
            × (build_attack_path g key ≡ ok p)
            × (t ≡ record s { emitted = s.emitted ++ key ∷ []; paths = s.paths ++ p ∷ [] }))
  unfolding emit
  emit-eq-ok key s t h = elim (Bool-cases (elem key s.emitted)) [
    | inl old ↦ inl (old, ground arith)
    | inr new ↦
        let (p, built, more) =
          >>=-eq-ok (build_attack_path g key)
            (λ p. ok (record s { emitted = s.emitted ++ key ∷ []; paths = s.paths ++ p ∷ [] }))
            (rw (new, emit) at h) in
        inr (p, new, built, ground arith)
  ]

  cap_target-eq :
      (s : Dfs)
      → (cap_target s).0 ≡ record s { truncated = leb 25 (length s.emitted) || s.truncated }
  unfolding cap_target
  cap_target-eq s = ground arith

  module _ (s : Dfs) (k m : String) (ms : List String) (rest : List Frame) (r : Dfs × Bool)
      (b : out_of_budget s ≡ false) (e : s.stack ≡ (k, m ∷ ms) ∷ rest) where
    abbrev taken : Dfs
    taken = record s { path_work = s.path_work + 1; stack = (k, ms) ∷ rest }

    of_target :
        m ≡ target
        → (emit g (key_of target s) taken >>= λ s'. ok (cap_target s')) ≡ ok r
        → Turned g target s r.0
    of_target same h =
        let (t, emitted, capped) =
          >>=-eq-ok (emit g (key_of target s) taken) (λ s'. ok (cap_target s')) h in
        let result : (cap_target t).0 ≡ r.0 = cc in
        elim (emit-eq-ok (key_of target s) taken t emitted) [
          | inl (old, unchanged) ↦
              Turned-result s _ r
                (repeated k m ms rest (leb 25 (length s.emitted) || s.truncated) b e same old
                  (λ c. ground arith))
                (sym (cap_target-eq taken) ∙ ap (λ u. (cap_target u).0) (sym unchanged) ∙ result)
          | inr (p, new, built, added) ↦
              let u : Dfs = record taken {
                emitted = s.emitted ++ key_of target s ∷ [];
                paths = s.paths ++ p ∷ [];
              } in
              Turned-result s _ r
                (found k m ms rest p (leb 25 (length u.emitted) || s.truncated) b e same new built
                  (λ c. ground arith))
                (sym (cap_target-eq u) ∙ ap (λ u. (cap_target u).0) (sym added) ∙ result)
        ]

    of_consider : consider g target m taken ≡ ok r → Turned g target s r.0
    unfolding consider
    of_consider h = elim (Bool-cases (elem m s.visited)) [
      | inl old ↦ Turned-result s _ r (skipped k m ms rest b e old) (ground arith)
      | inr new ↦ elim (Bool-cases (m == target)) [
        | inl same ↦ of_target ((==_iff m target).0 same) (rw (new, same, consider) at h)
        | inr other ↦ elim (Bool-cases (leb max_path_depth (length s.route))) [
          | inl deep ↦ Turned-result s _ r (too_deep k m ms rest b e) (ground arith)
          | inr room ↦ elim (Option-cases (adjacency g m)) [
            | inl none? ↦ absurd (ground arith)
            | inr (ns, adj) ↦
                Turned-result s _ r (pushed k m ms ns rest b e new other room adj) (ground arith)
          ]
        ]
      ]
    ]

  of_retreat :
      (s t : Dfs) (k : String) (rest : List Frame) (route : List String)
      → out_of_budget s ≡ false
      → s.stack ≡ (k, []) ∷ rest
      → s.route ≡ route
      → retreat rest route (record s { path_work = s.path_work + 1 }) ≡ ok t
      → Turned g target s t
  unfolding retreat
  of_retreat s t k rest [] b e same h = cc
  of_retreat s t k rest (n ∷ route) b e same h =
      subst (Turned g target s) (ground arith) (popped k n rest route b e same)

  of_advance :
      (s : Dfs) (r : Dfs × Bool) (stack : List Frame)
      → out_of_budget s ≡ false
      → s.stack ≡ stack
      → stack ≢ []
      → advance g target stack (record s { path_work = s.path_work + 1 }) ≡ ok r
      → Turned g target s r.0
  unfolding advance
  of_advance s r [] b e ne h = absurd (ne refl)
  of_advance s r ((k, []) ∷ rest) b e ne h =
      let (t, back, more) =
        >>=-eq-ok (retreat rest s.route (record s { path_work = s.path_work + 1 }))
          (λ s'. ok (s', true)) h in
      Turned-result s t r (of_retreat s t k rest s.route b e refl back) (cc)
  of_advance s r ((k, m ∷ ms) ∷ rest) b e ne h = of_consider s k m ms rest r b e h

  pub of_turn :
      (s : Dfs) (r : Dfs × Bool) → s.stack ≢ [] → turn g target s ≡ ok r → Turned g target s r.0
  unfolding turn
  of_turn s r ne h = elim (Bool-cases (out_of_budget s)) [
    | inl over ↦ Turned-result s _ r (spent over) (ground arith)
    | inr within ↦ of_advance s r s.stack within refl ne (rw (within, turn) at h)
  ]

  turn-stops :
      (s : Dfs) (r : Dfs × Bool)
      → turn g target s ≡ ok r
      → r.1 ≡ false
      → (r.0.stack ≡ []) ⊎ (r.0.truncated ≡ true)
  unfolding turn
  turn-stops s r h e = ground arith

  loop_rule-next {ℓ} :
      (P : Dfs → Type ℓ) (fuel : ℕ) (s t : Dfs) (r : Dfs × Bool)
      → P r.0
      → turn g target s ≡ ok r
      → (elim r.1 [ true ↦ dfs_loop g target fuel r.0 | false ↦ ok r.0 ]) ≡ ok t
      → (P r.0 → dfs_loop g target fuel r.0 ≡ ok t → P t × ((t.stack ≡ []) ⊎ (t.truncated ≡ true)))
      → P t × ((t.stack ≡ []) ⊎ (t.truncated ≡ true))
  loop_rule-next P fuel s t (u, true) p turned rest ih = ih p rest
  loop_rule-next P fuel s t (u, false) p turned rest ih =
      let same : u ≡ t = cc in
      subst (λ x. P x × ((x.stack ≡ []) ⊎ (x.truncated ≡ true))) same
        (p, turn-stops s (u, false) turned refl)

  -- What every turn keeps holds when the loop ends, where the stack is empty or the enumeration was
  -- truncated.
  pub loop_rule {ℓ} :
      (P : Dfs → Type ℓ)
      → ((s t : Dfs) → P s → Turned g target s t → P t)
      → (fuel : ℕ) (s t : Dfs) → P s
      → dfs_loop g target fuel s ≡ ok t
      → P t × ((t.stack ≡ []) ⊎ (t.truncated ≡ true))
  unfolding dfs_loop
  loop_rule P keeps zero s t p h = ground arith
  loop_rule P keeps (suc fuel) s t p h = elim (List-cases s.stack) [
    | inl empty ↦ ground arith
    | inr (f, fs, e) ↦
        let (r, turned, rest) =
          >>=-eq-ok (turn g target s)
            (λ r. elim r.1 [ true ↦ dfs_loop g target fuel r.0 | false ↦ ok r.0 ])
            (rw (e, dfs_loop) at h) in
        let next = of_turn s r (λ none_left. cc) turned in
        loop_rule-next P fuel s t r (keeps s r.0 p next) turned rest (loop_rule P keeps fuel r.0 t)
  ]

  pub truncated-Turned : {s t : Dfs} → Turned g target s t → s.truncated ≡ true → t.truncated ≡ true
  truncated-Turned (spent b) c = refl
  truncated-Turned (popped k n rest route b e f) c = c
  truncated-Turned (skipped k m ms rest b e old) c = c
  truncated-Turned (repeated k m ms rest cut b e same old keeps) c = keeps c
  truncated-Turned (found k m ms rest q cut b e same new built keeps) c = keeps c
  truncated-Turned (too_deep k m ms rest b e) c = refl
  truncated-Turned (pushed k m ms ns rest b e new other room adj) c = c
