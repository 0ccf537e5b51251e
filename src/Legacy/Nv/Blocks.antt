-- ===== src/Legacy/Nv/Blocks.antt =====
-- NVReadEx reads the whole contents in blocks, and does not end where the TPM gives no bytes.
use go_tpm.Base.{
  ℕ, zero, suc, ◌+◌, ◌-◌, ◌<◌, ◌≤◌, ◌≡◌, refl, ap, ◌∙◌, arith, List, [], ◌∷◌, ◌++◌, append-nil,
  none, some, ltb, ltb-false, ltb-true, length, length-take, take, drop, Bool-cases, inl, inr,
  ==_ne, ◌≢◌,
}
use go_tpm.Base.Outcome.{ok}
use go_tpm.Legacy.Tpm.{Tpm}
use go_tpm.Legacy.Nv.{read_block, read_blocks, read_size, nv_read_public, block_size_or, nv_read_ex}
use go_tpm.Legacy.Nv.Encodings.{NvPublic}

take-nil : (n : ℕ) → [] ≡ take {A = ℕ} n []
take-nil zero = refl
take-nil (suc n) = refl

suc_add : (k s : ℕ) → suc (k + s) ≡ suc k + s
suc_add k s = omega arith

take-add : (k s : ℕ) (xs : List ℕ) → take k xs ++ take s (drop k xs) ≡ take (k + s) xs
take-add zero s xs = ap (λ n. take n xs) (omega arith)
take-add (suc k) zero [] = take-nil (suc k + 0)
take-add (suc k) (suc s) [] = take-nil (suc k + suc s)
take-add (suc k) s (x ∷ xs) = ap (◌∷◌ x) (take-add k s xs) ∙ ap (λ n. take n (x ∷ xs)) (suc_add k s)

take-whole : (k : ℕ) (xs : List ℕ) → length xs ≤ k → take k xs ≡ xs
take-whole zero [] h = refl
take-whole zero (x ∷ xs) h = absurd (omega (arith, h))
take-whole (suc k) [] h = refl
take-whole (suc k) (x ∷ xs) h = ap (◌∷◌ x) (take-whole k xs (omega (arith, h)))

module _ {T : Type 0} (tpm : Tpm T) (index auth_handle : ℕ) (password content : List ℕ) where
  -- Every block within the contents is read, in every state.
  abbrev pub AnswersBlocks : Type 0
  AnswersBlocks =
      (t : T) (cursor size : ℕ)
      → cursor + size ≤ length content
      → (t' : T) × (read_block tpm index auth_handle password cursor size t
          ≡ (t', ok (take size (drop cursor content))))

  turn :
      (fuel block_size data_size : ℕ) (out block : List ℕ) (t t' : T)
      → length out < data_size
      → read_block tpm index auth_handle password
          (length out)
          (read_size tpm block_size (data_size - length out))
          t
        ≡ (t', ok block)
      → read_blocks tpm (suc fuel) index auth_handle password block_size data_size out t
        ≡ read_blocks tpm fuel index auth_handle password block_size data_size (out ++ block) t'
  unfolding read_blocks
  turn fuel block_size data_size out block t t' more e =
      rw (ltb-true (length out) data_size more, e)

  turn_from :
      (fuel block_size k : ℕ) (block : List ℕ) (t t' : T)
      → k < length content
      → length (take k content) ≡ k
      → read_block tpm index auth_handle password k
          (read_size tpm block_size (length content - k))
          t
        ≡ (t', ok block)
      → read_blocks tpm
          (suc fuel)
          index
          auth_handle
          password
          block_size
          (length content)
          (take k content)
          t
        ≡ read_blocks tpm fuel index auth_handle password block_size
            (length content)
            (take k content ++ block)
            t'
  turn_from fuel block_size k block t t' below size e =
      turn fuel block_size (length content) (take k content) block t t' (omega (arith, size, below))
        (rw size e)

  finished :
      (fuel block_size data_size : ℕ) (out : List ℕ) (t : T)
      → data_size ≤ length out
      → read_blocks tpm fuel index auth_handle password block_size data_size out t
        ≡ (t, ok (some out))
  unfolding read_blocks
  finished zero block_size data_size out t h = rw (ltb-false (length out) data_size h)
  finished (suc fuel) block_size data_size out t h = rw (ltb-false (length out) data_size h)

  size-bounds :
      (block_size left : ℕ)
      → 0 < block_size
      → 0 < left
      → (0 < read_size tpm block_size left) × (read_size tpm block_size left ≤ left)
  size-bounds block_size left pos some_left = elim (Bool-cases (ltb left block_size)) [
    | inl e ↦ rw e (some_left, omega arith)
    | inr e ↦ rw e (pos, ground (arith, e))
  ]

  blocks-read :
      (blocks : AnswersBlocks) (fuel block_size k : ℕ) (t : T)
      → 0 < block_size
      → k ≤ length content
      → length content ≤ k + fuel
      → (t' : T) × (read_blocks tpm fuel index auth_handle password block_size
            (length content)
            (take k content)
            t
          ≡ (t', ok (some content)))
  blocks-read blocks zero block_size k t pos h enough =
      let all : take k content ≡ content = take-whole k content (omega (arith, enough)) in
      (t, rw all (finished 0 block_size (length content) content t (omega arith)))
  blocks-read blocks (suc fuel) block_size k t pos h enough =
      elim (Bool-cases (ltb k (length content))) [
        | inl more ↦
            let size : length (take k content) ≡ k = omega (arith, length-take k content, h) in
            let below : k < length content = ground (arith, more) in
            let n = read_size tpm block_size (length content - k) in
            let (positive, fits) =
              size-bounds block_size (length content - k) pos (omega (arith, below)) in
            let (t₁, read) = blocks t k n (omega (arith, fits, h)) in
            let (t', rest) =
              blocks-read blocks fuel block_size (k + n) t₁ pos (omega (arith, fits, h))
                (omega (arith, enough, positive)) in
            (
              t',
              turn_from fuel block_size k (take n (drop k content)) t t₁ below size read
                  ∙ rw (take-add k n content) rest,
            )
        | inr done ↦
            let all : take k content ≡ content = take-whole k content (ground (arith, done)) in
            (t, rw all (finished (suc fuel) block_size (length content) content t (omega arith)))
      ]

  -- When the TPM answers every block within the contents of an NV index with these bytes, in every
  -- state, NVReadEx with a block size other than 0 returns the contents, of which the public area
  -- has the size, in at most as many turns as there are bytes.
  pub nv_read_ex-contents :
      (block_size : ℕ) (t t₁ : T) (p : NvPublic)
      → AnswersBlocks
      → block_size ≢ 0
      → nv_read_public tpm index t ≡ (t₁, ok p)
      → p.data_size ≡ length content
      → (t' : T) × (nv_read_ex tpm (length content) index auth_handle password block_size t
          ≡ (t', ok (some content)))
  unfolding nv_read_ex block_size_or
  nv_read_ex-contents block_size t t₁ p blocks nonzero public size =
      let (t', e) =
        blocks-read blocks (length content) block_size 0 t₁ (omega (arith, nonzero)) (omega arith)
          (omega arith) in
      (t', with_public t' e)
    where
      with_public :
          (t' : T)
          → read_blocks tpm
              (length content)
              index
              auth_handle
              password
              block_size
              (length content)
              []
              t₁
            ≡ (t', ok (some content))
          → nv_read_ex tpm (length content) index auth_handle password block_size t
            ≡ (t', ok (some content))
      with_public t' e = rw (==_ne block_size 0 nonzero, public, size) e

-- While the TPM answers with no bytes, in every state, and there are some left, the loop of NVReadEx
-- does not end, however many turns it takes: the size of a block is not looked at.
pub read_blocks-no_bytes :
    {T : Type 0} (tpm : Tpm T) (fuel index auth_handle : ℕ) (password : List ℕ)
    (block_size data_size : ℕ) (out : List ℕ) (t : T)
    → length out < data_size
    → ((t : T)
        → (t' : T) × (read_block tpm index auth_handle password
              (length out)
              (read_size tpm block_size (data_size - length out))
              t
            ≡ (t', ok [])))
    → (t' : T) × (read_blocks tpm fuel index auth_handle password block_size data_size out t
        ≡ (t', ok none))
unfolding read_blocks
read_blocks-no_bytes tpm zero index auth_handle password block_size data_size out t more stuck =
    (t, rw (ltb-true (length out) data_size more))
read_blocks-no_bytes tpm (suc fuel) index auth_handle password block_size data_size out t more
      stuck =
    let (t₁, empty) = stuck t in
    let (t', rest) =
      read_blocks-no_bytes tpm fuel index auth_handle password block_size data_size out t₁ more
        stuck in
    (
      t',
      turn tpm index auth_handle password [] fuel block_size data_size out [] t t₁ more empty
          ∙ rw append-nil rest,
    )
