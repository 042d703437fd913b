-- ===== src/Core/Message.antt =====
-- The bytes that votes and certificates sign: `appendUint32` and `appendUint64` of core/quorum_cert.go.
use svp_blockchain.Base.{
  ℕ, ◌*◌, ◌<◌, ◌^◌, List, [], ◌∷◌, ◌++◌, length, length-append, append-nil, drop, replicate, ◌≡◌,
  refl, arith, ap, sym, ◌∙◌,
}
use svp_blockchain.Base.Bytes.{Bytes}
use svp_blockchain.Base.Words.{le_bytes, le_value, length-le_bytes, le_value-le_bytes}

-- `PutUint32(buf, v)` writes at the start of `buf`, in every round of the loop.
unfoldable pub put_uint : ℕ → Bytes → List ℕ → Bytes
put_uint w buf [] = buf
put_uint w buf (v ∷ rest) = put_uint w (le_bytes w v ++ drop w buf) rest

unfoldable pub append_uint32 : Bytes → List ℕ → Bytes
unfolding put_uint
append_uint32 hash words = hash ++ put_uint 4 (replicate (4 * length words) 0) words

unfoldable pub append_uint64 : Bytes → List ℕ → Bytes
unfolding put_uint
append_uint64 hash words = hash ++ put_uint 8 (replicate (8 * length words) 0) words

-- The message of a vote, and that of a certificate's proposer
abbrev pub vote_message : Bytes → ℕ → ℕ → Bytes
vote_message hash view quota = append_uint64 (append_uint32 hash (view ∷ [])) (quota ∷ [])

abbrev pub qc_message : Bytes → ℕ → Bytes
qc_message hash view = append_uint32 hash (view ∷ [])

pub qc_message_lem : (hash : Bytes) (view : ℕ) → qc_message hash view ≡ hash ++ le_bytes 4 view
unfolding append_uint32
qc_message_lem hash view = simp append-nil

vote_message_lem :
    (hash : Bytes) (view quota : ℕ)
    → vote_message hash view quota ≡ (hash ++ le_bytes 4 view) ++ le_bytes 8 quota
unfolding append_uint32 append_uint64
vote_message_lem hash view quota = simp append-nil

append-injective : (a b x y : Bytes) → length a ≡ length b → a ++ x ≡ b ++ y → (a ≡ b) × (x ≡ y)
append-injective [] [] x y h e = (refl, e)
append-injective [] (k ∷ b) x y h e = absurd (omega arith)
append-injective (k ∷ a) [] x y h e = absurd (omega arith)
append-injective (k ∷ a) (j ∷ b) x y h e =
    let (p, q) = append-injective a b x y (omega arith) (cc) in (cc, q)

le_bytes-injective : (n x y : ℕ) → x < 256 ^ n → y < 256 ^ n → le_bytes n x ≡ le_bytes n y → x ≡ y
le_bytes-injective n x y hx hy e =
    sym (le_value-le_bytes n x hx) ∙ ap le_value e ∙ le_value-le_bytes n y hy

-- The message of a vote determines the vote: over block hashes of one length, two votes that sign the
-- same message have the same block hash, view and quota.
pub vote_message-injective :
    (a b : Bytes) (view view' quota quota' : ℕ)
    → length a ≡ length b
    → view < 2 ^ 32
    → view' < 2 ^ 32
    → quota < 2 ^ 64
    → quota' < 2 ^ 64
    → vote_message a view quota ≡ vote_message b view' quota'
    → (a ≡ b) × (view ≡ view') × (quota ≡ quota')
vote_message-injective a b view view' quota quota' h hv hv' hq hq' e =
    let lengths =
      length-append a (le_bytes 4 view)
      ∙ omega (arith, h, length-le_bytes 4 view, length-le_bytes 4 view')
      ∙ sym (length-append b (le_bytes 4 view')) in
    let (front, last) =
      append-injective (a ++ le_bytes 4 view) (b ++ le_bytes 4 view') (le_bytes 8 quota)
        (le_bytes 8 quota') lengths
        (sym (vote_message_lem a view quota) ∙ e ∙ vote_message_lem b view' quota') in
    let (hash, middle) = append-injective a b (le_bytes 4 view) (le_bytes 4 view') h front in
    (
      hash,
      le_bytes-injective 4 view view' hv hv' middle,
      le_bytes-injective 8 quota quota' hq hq' last,
    )

-- With more than one word, all but the last are lost: the rounds of the loop write over one another.
pub append_uint32_overwrites :
    (hash : Bytes) (x y v : ℕ) → append_uint32 hash (x ∷ v ∷ []) ≡ append_uint32 hash (y ∷ v ∷ [])
unfolding append_uint32 le_bytes
append_uint32_overwrites hash x y v = refl
