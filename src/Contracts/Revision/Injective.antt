-- ===== src/Contracts/Revision/Injective.antt =====
-- The canonical bytes determine the snapshot: two snapshots with the same bytes have the same scope
-- and the same rows, up to their order.
use mathlib.Core.List.Permᴰ
use mathlib.Core.List.{Permᴰ, append_assoc, append-nil}
use vpp_backend.Prelude.{
  ℕ, ◌≡◌, refl, sym, ap, subst, ◌∙◌, List, [], ◌∷◌, ◌++◌, length, arith, Result, ok, ◌>>=◌, ok_inj,
  >>-ok, >>=-ok, guard,
}
use vpp_backend.Prelude.Bytes.{Bytes, codes}
use vpp_backend.Prelude.Sort.{sort-Permᴰ}
use vpp_backend.Prelude.Decimal.{itoa, itoa_inj, format_int, format_int_inj}
use vpp_backend.Contracts.Revision.{
  RevisionScope, RevisionNode, RevisionCapability, RevisionBinding, RevisionError, Key, node_key,
  capability_key, binding_key, sort_nodes, sort_capabilities, sort_bindings, append_len_prefixed,
  append_key, append_all, is_identified, validate_revision_node, append_header, append_scope,
  revision_payload, encode_nodes, encode_capabilities, encode_bindings, validate_revision_scope,
}
use vpp_backend.Contracts.Revision.Fields.{
  cons_inj, fields, fields-append, fields_inj, append_len_prefixed-fields,
}

-- `r` is `buf` with the fields behind it.
abbrev Writes : List Bytes → Bytes → Bytes → Type 0
Writes fs buf r = r ≡ buf ++ fields fs

Writes-compose :
    (fs gs : List Bytes) (a b c : Bytes) → Writes fs a b → Writes gs b c → Writes (fs ++ gs) a c
Writes-compose fs gs a b c h k =
    k
    ∙ ap (λ t. t ++ fields gs) h
    ∙ append_assoc a (fields fs) (fields gs)
    ∙ ap (λ t. a ++ t) (sym (fields-append fs gs))

append-Writes : (buf v : Bytes) → Writes (v ∷ []) buf (append_len_prefixed buf v)
append-Writes = append_len_prefixed-fields

then_field :
    (fs : List Bytes) (v : Bytes) {buf : Bytes}
    → Writes fs [] buf
    → Writes (fs ++ (v ∷ [])) [] (append_len_prefixed buf v)
then_field fs v {buf} h = Writes-compose fs (v ∷ []) [] buf _ h (append-Writes buf v)

abbrev key_fields : Key → List Bytes
key_fields (a, (b, v)) = a ∷ b ∷ format_int v ∷ []

key_fields_inj : (k l : Key) → key_fields k ≡ key_fields l → k ≡ l
key_fields_inj (a, (b, v)) (c, (d, w)) e =
    let (same_a, rest) = cons_inj e in
    let (same_b, last) = cons_inj rest in
    let same_v = format_int_inj v w (cons_inj last).0 in λ i. (same_a i, (same_b i, same_v i))

append_key-Writes : (buf : Bytes) (k : Key) → Writes (key_fields k) buf (append_key buf k)
unfolding append_key
append_key-Writes buf (a, (b, v)) =
    Writes-compose (a ∷ []) (b ∷ format_int v ∷ []) _ _ _ (append-Writes buf a)
      (Writes-compose (b ∷ []) (format_int v ∷ []) _ _ _ (append-Writes _ b) (append-Writes _ _))

abbrev header_fields : Bytes → ℕ → List Bytes
header_fields title count = title ∷ itoa count ∷ []

append_header-Writes :
    (buf title : Bytes) (n : ℕ) → Writes (header_fields title n) buf (append_header buf title n)
unfolding append_header
append_header-Writes buf title n =
    Writes-compose (title ∷ []) (itoa n ∷ []) _ _ _ (append-Writes buf title) (append-Writes _ _)

module _ {A : Type 0} (key : A → Key) where
  abbrev entry_fields : List A → List Bytes
  entry_fields [] = []
  entry_fields (x ∷ xs) = key_fields (key x) ++ entry_fields xs

  append_all-Writes :
      (valid : A → Result RevisionError (Unit {0})) (xs : List A) (buf : Bytes) {r : Bytes}
      → append_all valid key buf xs ≡ ok r
      → Writes (entry_fields xs) buf r
  unfolding append_all fields
  append_all-Writes valid [] buf e = sym (ok_inj e) ∙ sym (append-nil buf)
  append_all-Writes valid (x ∷ xs) buf e =
      Writes-compose (key_fields (key x)) (entry_fields xs) _ _ _ (append_key-Writes buf (key x))
        (append_all-Writes valid xs _ (>>-ok (valid x) _ e).1)

  -- A list that is preceded by its length.
  abbrev block : Bytes → List A → List Bytes
  block title xs = header_fields title (length xs) ++ entry_fields xs

  entries-split :
      ((a b : A) → key a ≡ key b → a ≡ b)
      → (xs ys : List A) {r s : List Bytes} → length xs ≡ length ys
      → entry_fields xs ++ r ≡ entry_fields ys ++ s
      → (xs ≡ ys) × (r ≡ s)
  entries-split determines [] [] h e = (refl, e)
  entries-split determines [] (y ∷ ys) h e = absurd (omega arith)
  entries-split determines (x ∷ xs) [] h e = absurd (omega arith)
  entries-split determines (x ∷ xs) (y ∷ ys) h e =
      let (same_a, e₁) = cons_inj e in
      let (same_b, e₂) = cons_inj e₁ in
      let (same_v, e₃) = cons_inj e₂ in
      let first =
        determines x y
          (key_fields_inj (key x) (key y) (λ i. same_a i ∷ same_b i ∷ same_v i ∷ [])) in
      let (same, tails) = entries-split determines xs ys (omega arith) e₃ in
      (λ i. first i ∷ same i, tails)

  block-split :
      ((a b : A) → key a ≡ key b → a ≡ b)
      → (title : Bytes) (xs ys : List A) {r s : List Bytes}
      → block title xs ++ r ≡ block title ys ++ s
      → (xs ≡ ys) × (r ≡ s)
  block-split determines title xs ys e =
      let (count, rest) = cons_inj (cons_inj e).1 in
      entries-split determines xs ys (itoa_inj count) rest

  append_block-Writes :
      (valid : A → Result RevisionError (Unit {0})) (buf title : Bytes) (xs : List A) {r : Bytes}
      → append_all valid key (append_header buf title (length xs)) xs ≡ ok r
      → Writes (block title xs) buf r
  append_block-Writes valid buf title xs e =
      Writes-compose (header_fields title (length xs)) (entry_fields xs) _ _ _
        (append_header-Writes buf title (length xs)) (append_all-Writes valid xs _ e)

abbrev scope_fields : RevisionScope → List Bytes
scope_fields s = codes "1" ∷ codes "scope" ∷ s.tenant_id ∷ s.scope_type ∷ s.scope_id ∷ []

append_scope-Writes : (s : RevisionScope) → Writes (scope_fields s) [] (append_scope s)
unfolding append_scope
append_scope-Writes s =
    then_field (codes "1" ∷ codes "scope" ∷ s.tenant_id ∷ s.scope_type ∷ []) s.scope_id (
      then_field (codes "1" ∷ codes "scope" ∷ s.tenant_id ∷ []) s.scope_type (
        then_field (codes "1" ∷ codes "scope" ∷ []) s.tenant_id
          (then_field (codes "1" ∷ []) (codes "scope") (append-Writes [] (codes "1")))))

-- Everything that is hashed, field by field.
abbrev blocks : List RevisionNode → List RevisionCapability → List RevisionBinding → List Bytes
blocks ns cs bs =
    block node_key (codes "nodes") ns
    ++ (block capability_key (codes "capabilities") cs ++ block binding_key (codes "bindings") bs)

revision_payload-fields :
    (s : RevisionScope) (ns : List RevisionNode) (cs : List RevisionCapability)
    (bs : List RevisionBinding) {p : Bytes}
    → revision_payload s ns cs bs ≡ ok p
    → p
      ≡ fields (scope_fields s ++ blocks (sort_nodes ns) (sort_capabilities cs) (sort_bindings bs))
unfolding revision_payload encode_nodes encode_capabilities encode_bindings
revision_payload-fields s ns cs bs {p} e =
    let n = encode_nodes (sort_nodes ns) (append_scope s) in
    let c = encode_capabilities (sort_capabilities cs) in
    let b = encode_bindings (sort_bindings bs) in
    let written = (>>-ok (validate_revision_scope s) (n >>= c >>= b) e).1 in
    let (buf', rest, bindings) = >>=-ok (n >>= c) b written in
    let (buf, nodes, capabilities) = >>=-ok n c rest in
    let title_n = block node_key (codes "nodes") (sort_nodes ns) in
    let title_c = block capability_key (codes "capabilities") (sort_capabilities cs) in
    let title_b = block binding_key (codes "bindings") (sort_bindings bs) in
    Writes-compose (scope_fields s) (title_n ++ (title_c ++ title_b)) [] (append_scope s) p
      (append_scope-Writes s)
      (Writes-compose title_n (title_c ++ title_b) (append_scope s) buf p
        (append_block-Writes node_key validate_revision_node (append_scope s) (codes "nodes")
          (sort_nodes ns) nodes)
        (Writes-compose title_c title_b buf buf' p
          (append_block-Writes capability_key
            (λ c.
              guard (is_identified (capability_key c)) RevisionError.capability_identity_invalid)
            buf (codes "capabilities") (sort_capabilities cs) capabilities)
          (append_block-Writes binding_key
            (λ b. guard (is_identified (binding_key b)) RevisionError.binding_identity_invalid) buf'
            (codes "bindings") (sort_bindings bs) bindings)))

scope_fields-split :
    (s t : RevisionScope) {r r' : List Bytes}
    → scope_fields s ++ r ≡ scope_fields t ++ r'
    → (s ≡ t) × (r ≡ r')
scope_fields-split s t e =
    let (tenant, e₁) = cons_inj (cons_inj (cons_inj e).1).1 in
    let (kind, e₂) = cons_inj e₁ in
    let (id, e₃) = cons_inj e₂ in
    (λ i. record { tenant_id = tenant i; scope_type = kind i; scope_id = id i }, e₃)

sorted-Permᴰ {ℓ} :
    {A : Type ℓ} {xs ys sx sy : List A} → Permᴰ sx xs → Permᴰ sy ys → sx ≡ sy → Permᴰ xs ys
sorted-Permᴰ {A} {xs} {ys} p q e = Permᴰ.trans (Permᴰ.symm p) (subst (λ l. Permᴰ l ys) (sym e) q)

-- Two snapshots that are encoded to the same bytes have the same tenant, scope type and scope id,
-- and their nodes, capabilities and bindings are rearrangements of each other.
pub revision_payload-determines :
    {s t : RevisionScope} {ns ns' : List RevisionNode} {cs cs' : List RevisionCapability}
    {bs bs' : List RevisionBinding} {p : Bytes}
    → revision_payload s ns cs bs ≡ ok p
    → revision_payload t ns' cs' bs' ≡ ok p
    → (s ≡ t) × Permᴰ ns ns' × Permᴰ cs cs' × Permᴰ bs bs'
unfolding sort_nodes sort_capabilities sort_bindings
revision_payload-determines {s} {t} {ns} {ns'} {cs} {cs'} {bs} {bs'} h k =
    let same =
      fields_inj _ _
        (sym (revision_payload-fields s ns cs bs h) ∙ revision_payload-fields t ns' cs' bs' k) in
    let (scope, e₁) = scope_fields-split s t same in
    let (nodes, e₂) =
      block-split node_key
        (λ a b e. λ i. record { entity_type = (e i).0; entity_id = (e i).1.0; version = (e i).1.1 })
        (codes "nodes") (sort_nodes ns) (sort_nodes ns') e₁ in
    let (capabilities, e₃) =
      block-split capability_key
        (λ a b e. λ i. record { cu_id = (e i).0; capability_id = (e i).1.0; version = (e i).1.1 })
        (codes "capabilities") (sort_capabilities cs) (sort_capabilities cs') e₂ in
    let (bindings, _) =
      block-split binding_key
        (λ a b e. λ i. record { cu_id = (e i).0; metric_id = (e i).1.0; version = (e i).1.1 })
        (codes "bindings") (sort_bindings bs) (sort_bindings bs') (λ i. e₃ i ++ []) in
    (
      scope,
      sorted-Permᴰ (sort-Permᴰ _ ns) (sort-Permᴰ _ ns') nodes,
      sorted-Permᴰ (sort-Permᴰ _ cs) (sort-Permᴰ _ cs') capabilities,
      sorted-Permᴰ (sort-Permᴰ _ bs) (sort-Permᴰ _ bs') bindings,
    )
