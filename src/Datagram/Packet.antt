-- ===== src/Datagram/Packet.antt =====
-- What a datagram says, and its bytes on the wire as PROTOCOL.markdown lists them.
use bootloader_proposal.Base.{
  ℕ, suc, ◌+◌, ◌^◌, ◌≤◌, ◌<◌, ◌≡◌, refl, ap, ◌∙◌, [], ◌∷◌, ◌++◌, append_assoc, append-nil, length,
  set, take, take-suc-set, length-set, arith, Bytes, be32, u32_mod,
}

pub record Packet : Type 0 where
  pub version : ℕ
  pub crc : ℕ
  pub nodes : Bytes
  pub body : Bytes

unfoldable pub encode : Packet → Bytes
encode p =
    p.version ∷ (be32 p.crc ++ (length p.nodes ∷ (p.nodes ++ (be32 (length p.body) ++ p.body))))

-- Every field fits its place on the wire, and neither list is empty.
pub record IsSendable (p : Packet) : Type 0 where
  pub version_byte : p.version < 2 ^ 8
  pub crc_word : p.crc < u32_mod
  pub nodes_pos : 0 < length p.nodes
  pub nodes_byte : length p.nodes < 2 ^ 8
  pub body_pos : 0 < length p.body
  pub body_half : length p.body < 2 ^ 16

-- A buffer after the bytes `bs` are written to it from index `k` on.
abbrev pub store : Bytes → ℕ → Bytes → Bytes
store buf k [] = buf
store buf k (b ∷ bs) = store (set buf k b) (k + 1) bs

pub length-store : (bs buf : Bytes) (k : ℕ) → length (store buf k bs) ≡ length buf
length-store [] buf k = refl
length-store (b ∷ bs) buf k = length-store bs (set buf k b) (k + 1) ∙ length-set buf k b

pub take-store :
    (bs buf : Bytes) (k n : ℕ)
    → k + length bs ≤ length buf
    → n ≡ k + length bs
    → take n (store buf k bs) ≡ take k buf ++ bs
take-store [] buf k n h e = rw (append-nil, e) (ap (λ m. take m buf) (omega arith))
take-store (b ∷ bs) buf k n h e =
    take-store bs (set buf k b) (k + 1) n (omega (arith, length-set buf k b)) (omega arith)
    ∙ ap (λ xs. xs ++ bs) (next ∙ take-suc-set buf k b (omega arith))
    ∙ append_assoc (take k buf) (b ∷ []) bs
  where
    next : take (k + 1) (set buf k b) ≡ take (suc k) (set buf k b)
    next = ap (λ m. take m (set buf k b)) {x = k + 1} {y = suc k} (omega arith)
