-- ===== src/Tests/Nv.antt =====
-- NVReadEx on an index of two bytes.
use go_tpm.Base.{
  ℕ, zero, suc, ◌+◌, ◌-◌, ◌≤◌, ◌≡◌, refl, arith, List, [], ◌∷◌, ◌++◌, none, some, length, take,
  drop, ◌==◌, if◌then◌else◌,
}
use go_tpm.Base.Bytes.{put_be, get_be, be_from}
use go_tpm.Base.Outcome.{ok}
use go_tpm.Tpmutil.Encoding.{
  pack_value, pack_values, unpack, unpack_buf, unpack_value, unpack_fields, read_full, binary_read,
}
use go_tpm.Tpmutil.Run.{bytes_read, run_loop, run_command_raw}
use go_tpm.Tpmutil.Command.{run_command, pack_with_header, after_raw}
use go_tpm.Legacy.ResponseCode.{decode_response}
use go_tpm.Legacy.Wire.{pack, unpack_num, unpack_bytes}
use go_tpm.Legacy.Tpm.{Tpm, run, encode_auth_area, pack_auths}
use go_tpm.Legacy.Nv.{read_block, read_blocks, nv_read_public, nv_read_ex}
use go_tpm.Legacy.Nv.Encodings.{
  NvPublic, encode_nv_read, decode_nv_read, decode_nv_read_public, unpack_nv_public,
}
use go_tpm.Legacy.Nv.Blocks.{AnswersBlocks, nv_read_ex-contents, read_blocks-no_bytes}

abbrev contents : List ℕ
contents = 7 ∷ 8 ∷ []

abbrev ok_header : List ℕ
ok_header = 0x80 ∷ 2 ∷ 0 ∷ 0 ∷ 0 ∷ 0 ∷ 0 ∷ 0 ∷ 0 ∷ 0 ∷ []

-- the size and the offset are the last bytes of a command
abbrev block_of : List ℕ → List ℕ → List ℕ
block_of memory inb =
    let size = get_be (take 2 (drop (length inb - 4) inb)) in
    let offset = get_be (drop (length inb - 2) inb) in
    (0 ∷ 0 ∷ 0 ∷ 0 ∷ 0 ∷ length (take size (drop offset memory)) ∷ [])
    ++ take size (drop offset memory)

abbrev public_bytes : List ℕ
public_bytes = 0 ∷ 14 ∷ 1 ∷ 0 ∷ 0 ∷ 1 ∷ 0 ∷ 11 ∷ 0 ∷ 0 ∷ 0 ∷ 0 ∷ 0 ∷ 0 ∷ 0 ∷ 2 ∷ []

abbrev memory_tpm : List ℕ → Tpm (Unit {0})
memory_tpm memory = record {
  answers = λ t inb tries. bytes_read (
      ok_header
      ++ (if get_be (take 4 (drop 6 inb)) == 0x169 then public_bytes else block_of memory inb));
  after = λ t inb. t;
}

abbrev index_public : NvPublic
index_public = record {
  nv_index = 0x01000001;
  name_alg = 11;
  attributes = 0;
  auth_policy = [];
  data_size = 2;
}

public_read : nv_read_public (memory_tpm contents) 0x01000001 tt ≡ (tt, ok index_public)
unfolding nv_read_public run run_command pack_with_header after_raw run_command_raw run_loop pack
    pack_value pack_values unpack unpack_buf unpack_value unpack_fields read_full binary_read put_be
    get_be be_from decode_response unpack_num unpack_bytes decode_nv_read_public unpack_nv_public
public_read = refl

block_read :
    (cursor size : ℕ)
    → cursor + size ≤ 2
    → read_block (memory_tpm contents) 0x01000001 0x01000001 [] cursor size tt
      ≡ (tt, ok (take size (drop cursor contents)))
unfolding read_block run run_command pack_with_header after_raw run_command_raw run_loop pack
    pack_value pack_values unpack unpack_buf unpack_value unpack_fields read_full binary_read put_be
    get_be be_from decode_response unpack_num unpack_bytes encode_nv_read decode_nv_read
    encode_auth_area pack_auths
block_read zero zero h = refl
block_read zero (suc zero) h = refl
block_read zero (suc (suc zero)) h = refl
block_read zero (suc (suc (suc n))) h = absurd (omega (arith, h))
block_read (suc zero) zero h = refl
block_read (suc zero) (suc zero) h = refl
block_read (suc zero) (suc (suc n)) h = absurd (omega (arith, h))
block_read (suc (suc zero)) zero h = refl
block_read (suc (suc zero)) (suc n) h = absurd (omega (arith, h))
block_read (suc (suc (suc k))) n h = absurd (omega (arith, h))

all_blocks : AnswersBlocks (memory_tpm contents) 0x01000001 0x01000001 [] contents
all_blocks t cursor size h = (tt, block_read cursor size h)

nv_read_ex-contents_example :
    (t : Unit {0}) × (nv_read_ex (memory_tpm contents) 2 0x01000001 0x01000001 [] 1 tt
      ≡ (t, ok (some contents)))
nv_read_ex-contents_example =
    nv_read_ex-contents (memory_tpm contents) 0x01000001 0x01000001 [] contents 1 tt tt index_public
      all_blocks (omega arith) public_read refl

no_block :
    (t : Unit {0})
    → (t' : Unit {0}) × (read_block (memory_tpm []) 0x01000001 0x01000001 [] 0 1 t ≡ (t', ok []))
unfolding read_block run run_command pack_with_header after_raw run_command_raw run_loop pack
    pack_value pack_values unpack unpack_buf unpack_value unpack_fields read_full binary_read put_be
    get_be be_from decode_response unpack_num unpack_bytes encode_nv_read decode_nv_read
    encode_auth_area pack_auths
no_block t = (t, refl)

read_blocks-no_bytes_example :
    (t' : Unit {0}) × (read_blocks (memory_tpm []) 1000 0x01000001 0x01000001 [] 1 2 [] tt
      ≡ (t', ok none))
read_blocks-no_bytes_example =
    read_blocks-no_bytes (memory_tpm []) 1000 0x01000001 0x01000001 [] 1 2 [] tt (omega arith)
      no_block
