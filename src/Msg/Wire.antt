-- ===== src/Msg/Wire.antt =====
-- The headers of an IKE message: ikev2_add_header, ikev2_set_header, ikev2_add_payload and
-- ikev2_next_payload of iked/ikev2.c, ikev2_msg_encrypt_prepare of iked/ikev2_msg.c, which
-- fills them in, and what ikev2_msg_send and ikev2_msg_cb of iked/ikev2_msg.c put around a message
-- and take off it. The pointers to the headers are offsets into the buffer.
use openiked_portable.Base.{
  ℕ, suc, ◌∷◌, ◌-◌, ◌^◌, [], some, ◌&&◌, List, ◌+◌, ◌%◌, Bool, not, ◌++◌, bit_or, zero, ◌/◌, Option,
  fail_if, bytes_eq, take, drop, zeros, length, ltb, leb, if◌then◌else◌, ◌>>◌, ◌>>=◌,
}
use openiked_portable.Crypto.{le_bytes}
use openiked_portable.Msg.{ibuf_new, ibuf_add, pldlen_of, IkeSa}

-- htobe16, htobe32 and htobe64 of a value, in so many bytes.
abbrev pub be_bytes : ℕ → ℕ → List ℕ
be_bytes zero v = []
be_bytes (suc n) v = v / 256 ^ n % 256 ∷ be_bytes n v

-- A store through a pointer into the buffer.
unfoldable pub put : ℕ → List ℕ → List ℕ → List ℕ
put offset bytes buf = take offset buf ++ (bytes ++ drop (offset + length bytes) buf)

abbrev pub flag_initiator : ℕ
flag_initiator = 8

abbrev pub flag_response : ℕ
flag_response = 32

abbrev pub ikev2_version : ℕ
ikev2_version = 32

abbrev pub payload_sk : ℕ
payload_sk = 46

-- The initiator flag is set in the flags that are given.
unfoldable pub header_of : IkeSa → ℕ → ℕ → ℕ → ℕ → List ℕ
header_of sa msgid nextpayload exchange flags =
    be_bytes 8 sa.sh_ispi
    ++ (be_bytes 8 sa.sh_rspi
        ++ (nextpayload
            ∷ ikev2_version
            ∷ exchange
            ∷ (if sa.sh_initiator then bit_or flags flag_initiator else flags)
            ∷ (be_bytes 4 msgid ++ be_bytes 4 28)))

unfoldable pub ikev2_add_header : List ℕ → IkeSa → ℕ → ℕ → ℕ → ℕ → Option (List ℕ)
unfolding ibuf_add header_of
ikev2_add_header buf sa msgid nextpayload exchange flags =
    ibuf_add buf (header_of sa msgid nextpayload exchange flags)

-- The length of the header is in the bytes 24 to 27; it is compared as a uint32_t.
unfoldable pub ikev2_set_header : ℕ → List ℕ → Option (List ℕ)
unfolding put
ikev2_set_header len buf = do
  fail_if (ltb (2 ^ 32 - 1) ((28 + len) % 2 ^ 32))
  some (put 24 (be_bytes 4 (28 + len)) buf)

-- The length of a new payload is in the byte order of the host.
unfoldable pub ikev2_add_payload : List ℕ → Option (List ℕ)
unfolding ibuf_add
ikev2_add_payload buf = ibuf_add buf (0 ∷ 0 ∷ le_bytes 2 4)

unfoldable pub ikev2_next_payload : ℕ → ℕ → ℕ → List ℕ → Option (List ℕ)
unfolding put
ikev2_next_payload pld len nextpayload buf = do
  fail_if (ltb (2 ^ 16 - 1) (4 + len))
  some (put pld (nextpayload ∷ []) (put (pld + 2) (be_bytes 2 (4 + len)) buf))

-- For a text of so many bytes behind the headers in `buf`, with the payload at `pld`.
unfoldable pub ikev2_msg_encrypt_prepare : IkeSa → ℕ → List ℕ → ℕ → ℕ → Bool → Option (List ℕ)
unfolding pldlen_of ikev2_next_payload ikev2_set_header
ikev2_msg_encrypt_prepare sa pld buf len firstpayload fragmentation = do
  c ← sa.encr
  h ← sa.integr
  let pldlen = pldlen_of c h len
  buf' ← ikev2_next_payload pld (pldlen + (if fragmentation then 4 else 0)) firstpayload buf
  ikev2_set_header (length buf + pldlen - 28) buf'

-- What is sent of a message: with the marker of NAT traversal before it.
unfoldable pub ikev2_msg_send : Bool → List ℕ → Option (List ℕ)
unfolding ibuf_add
ikev2_msg_send natt buf = do
  fail_if (ltb (length buf) 28)
  if natt then ibuf_add (zeros 4) buf else some buf

-- What is received: a message behind the marker on the port for NAT traversal, or without.
unfoldable pub ikev2_msg_cb : Bool → List ℕ → Option (List ℕ)
unfolding bytes_eq ibuf_new
ikev2_msg_cb natt buf = do
  fail_if (ltb (length buf) 4)
  fail_if (natt && not (bytes_eq (zeros 4) (take 4 buf)))
  let msg = if natt then drop 4 buf else buf
  fail_if (leb (length msg) 28)
  ibuf_new msg
