-- ===== src/Handler/Sockets.antt =====
-- What datagram_socket.cpp and stream_socket.cpp share: the parameters of a socket, its address, and
-- `build_address`.
use ipc_performance.Prelude.{
  ℕ, ◌+◌, ◌*◌, ◌/◌, ◌%◌, ◌<◌, ◌^◌, ◌≡◌, Bool, if◌then◌else◌, Option, none, some, List, [], take,
  arith, true, false, refl, ◌==◌, ◌&&◌, eq→==, inl, inr, Bool-cases, Option-cases,
}
use ipc_performance.Text.{same_text, same_text-refl}

-- `std::variant<sockaddr_un, sockaddr_in>`: a path, or an address and a port in network byte order.
pub data Address : Type 0 where
  unix_address : List ℕ → Address
  inet_address : ℕ → ℕ → Address

-- `parameters_`, `server_` and `unix_`.
pub record Parameters : Type 0 where
  pub path : List ℕ
  pub port : ℕ
  pub server : Bool
  pub unix : Bool

-- `htons` on the target.
unfoldable pub htons : ℕ → ℕ
htons n = n % 256 * 256 + n / 256 % 256

-- `strncpy` into `sun_path`, which has 108 bytes, the last of them 0.
unfoldable pub sun_path_of : List ℕ → List ℕ
sun_path_of path = take 107 path

-- `parsed` is what `inet_pton` makes of the path. The result is `none` where it is false.
unfoldable pub build_address : Parameters → Option ℕ → Option Address
unfolding sun_path_of htons
build_address p parsed =
    if p.unix
    then some (unix_address (sun_path_of p.path))
    else if p.server
    then some (inet_address 0 (htons p.port))
    else elim parsed [ none ↦ none | some ip ↦ some (inet_address ip (htons p.port)) ]

-- `std::get<0>(address_).sun_path`
abbrev pub sun_path : Address → List ℕ
sun_path (unix_address path) = path
sun_path (inet_address ip port) = []

-- Both bytes of a port change places.
pub htons-htons : (n : ℕ) → n < 2 ^ 16 → htons (htons n) ≡ n
unfolding htons
htons-htons n h = omega arith

-- Whether a datagram to the first address comes to a socket that is bound to the second; `here` says which
-- IP addresses the reader's machine has. A socket that is bound to INADDR_ANY takes all of those.
unfoldable pub comes_to : (ℕ → Bool) → Address → Address → Bool
unfolding same_text
comes_to here (unix_address path) (unix_address bound) = same_text path bound
comes_to here (inet_address ip port) (inet_address bound bound_port) =
    (port == bound_port) && (if bound == 0 then here ip else ip == bound)
comes_to here to bound = false

-- What a client builds comes to what a server of the same parameters builds.
pub build_address-comes_to :
    (here : ℕ → Bool) (p q : Parameters) (parsed unused : Option ℕ) (a b : Address)
    → p.path ≡ q.path
    → p.port ≡ q.port
    → p.unix ≡ q.unix
    → p.server ≡ false
    → q.server ≡ true
    → ((ip : ℕ) → parsed ≡ some ip → here ip ≡ true)
    → build_address p parsed ≡ some a
    → build_address q unused ≡ some b
    → comes_to here a b ≡ true
unfolding build_address comes_to
build_address-comes_to here p q parsed unused a b path port unix client server known ea eb =
    elim (Bool-cases p.unix) [
      | inl u ↦
          let fa : a ≡ unix_address (sun_path_of p.path) = ground arith in
          let fb : b ≡ unix_address (sun_path_of p.path) = ground arith in
          rw (fa, fb) (same_text-refl (sun_path_of p.path))
      | inr u ↦ elim (Option-cases parsed) [
        | inl e ↦ absurd (ground arith)
        | inr (ip, e) ↦
            let fa : a ≡ inet_address ip (htons p.port) = ground arith in
            let fb : b ≡ inet_address 0 (htons p.port) = ground arith in
            rw (fa, fb, eq→== (htons p.port) (htons p.port) refl, known ip e) refl
      ]
    ]
