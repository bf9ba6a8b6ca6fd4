-- ===== src/Epics/Pva/Writer.antt =====
-- The datagrams that internal/epics/pva/pva.go builds, always big-endian. A name of the writer's
-- methods stands for the bytes that the method appends.
use wirepup.Base.{
  ℕ, ◌+◌, ◌/◌, ◌%◌, ◌^◌, zero, suc, Bool, true, false, List, [], ◌∷◌, ◌++◌, ltb, if◌then◌else◌,
  length, replicate, Bytes, put16, put32,
}
use wirepup.Net.{Addr}

unfoldable pub put_size : ℕ → Bytes
put_size n = if ltb n 254 then n % 256 ∷ [] else 254 ∷ put32 (n % 2 ^ 32)

unfoldable pub put_str : Bytes → Bytes
put_str s = put_size (length s) ++ s

-- The low `k` bytes of a number, in network order.
unfoldable pub put_low : ℕ → ℕ → Bytes
put_low zero n = []
put_low (suc k) n = put_low k (n / 256) ++ (n % 256 ∷ [])

unfoldable pub put_addr : Addr → Bytes
put_addr Addr.invalid = replicate 16 0
put_addr (Addr.v4 a) = replicate 10 0 ++ (0xff ∷ 0xff ∷ put32 a)
put_addr (Addr.v6 a) = put_low 16 a

unfoldable pub framed : ℕ → Bool → Bytes → Bytes
framed cmd from_server payload =
    0xca
    ∷ 2
    ∷ (if from_server then 0xc0 else 0x80)
    ∷ cmd
    ∷ (put32 (length payload % 2 ^ 32) ++ payload)

-- `"tcp"`
abbrev pub tcp_name : Bytes
tcp_name = 116 ∷ 99 ∷ 112 ∷ []

abbrev pub flag : Bool → ℕ → ℕ
flag b n = if b then n else 0

unfoldable pub search_datagram : ℕ → ℕ → Bytes → Bool → Bool → ℕ → Bytes
search_datagram seq id name reply_required unicast response_port = framed 3 false (
    put32 seq
    ++ ((flag reply_required 1 + flag unicast 0x80)
        ∷ 0
        ∷ 0
        ∷ 0
        ∷ (put_addr Addr.invalid
            ++ (put16 response_port
                ++ (put_size 1 ++ (put_str tcp_name ++ (put16 1 ++ (put32 id ++ put_str name))))))))

-- `for _, x := range xs { put(x) }`
unfoldable pub put_list {ℓ} : {A : Type ℓ} → (A → Bytes) → List A → Bytes
put_list put [] = []
put_list put (x ∷ xs) = put x ++ put_list put xs

unfoldable pub search_response_datagram : Bytes → ℕ → Addr → ℕ → Bool → List ℕ → Bytes
search_response_datagram guid seq server port found ids = framed 4 true (
    guid
    ++ (put32 seq
        ++ (put_addr server
            ++ (put16 port
                ++ (put_str tcp_name
                    ++ (flag found 1 ∷ (put16 (length ids % 2 ^ 16) ++ put_list put32 ids)))))))

unfoldable pub beacon_datagram : Bytes → ℕ → ℕ → Addr → ℕ → Bytes
beacon_datagram guid seq change server port = framed 0 true (
    guid
    ++ (0
        ∷ seq
        ∷ (put16 change ++ (put_addr server ++ (put16 port ++ (put_str tcp_name ++ (0xff ∷ [])))))))

unfoldable pub validation_request : ℕ → ℕ → List Bytes → Bytes
validation_request size registry auth =
    framed 1 true
      (put32 size ++ (put16 registry ++ (put_size (length auth) ++ put_list put_str auth)))

unfoldable pub set_byte_order : Bool → Bytes
set_byte_order big = 0xca ∷ 2 ∷ (if big then 0xc1 else 0x41) ∷ 2 ∷ 0 ∷ 0 ∷ 0 ∷ 0 ∷ []

unfoldable pub create_channel_request : ℕ → Bytes → Bytes
create_channel_request id name = framed 7 false (put16 1 ++ (put32 id ++ put_str name))
