-- ===== src/Object/Print.antt =====
-- object/ping.cpp, java_symbol.cpp, binary_data.cpp, data_header.cpp and src/utility.cpp: how objects,
-- headers and memory are printed, to a stream that prints numbers in base 10.
pub mod Hex
use ipc_performance.Prelude.{ℕ, ◌-◌, ◌^◌, ltb, if◌then◌else◌, List, [], ◌∷◌, ◌++◌, take}
use ipc_performance.Text.{to_text, set_width}
use ipc_performance.Handler.Os.{codes}
use ipc_performance.Object.DataType.{type_code}
use ipc_performance.Object.DataHeader.{DataHeader}
use ipc_performance.Object.JavaSymbol.{JavaSymbol}
use ipc_performance.Object.BinaryData.{BinaryData}
use ipc_performance.Communication.{DataObject, ping_object, symbol_object, binary_object}

abbrev pub print_ping : List ℕ
print_ping = codes "()"

unfoldable pub print_symbol : JavaSymbol → List ℕ
print_symbol s =
    codes "(0x"
    ++ (set_width 16 (to_text 16 s.address)
        ++ (codes ", 0x"
            ++ (set_width 8 (to_text 16 s.area)
                ++ (codes ", " ++ (b'"' ∷ (s.symbol ++ (b'"' ∷ codes ")")))))))

-- The loop of both that print bytes.
unfoldable pub print_bytes : List ℕ → List ℕ
print_bytes [] = []
print_bytes (b ∷ bs) = set_width 2 (to_text 16 b) ++ print_bytes bs

unfoldable pub print_binary : BinaryData → List ℕ
unfolding print_bytes
print_binary d = b'(' ∷ (print_bytes d.bytes ++ codes ")")

-- `print_array`, with the end of the line.
unfoldable pub print_array : List ℕ → ℕ → List ℕ
unfolding print_bytes
print_array memory size = print_bytes (take size memory) ++ 10 ∷ []

-- A `std::int64_t`, in base 10.
abbrev pub print_signed : ℕ → List ℕ
print_signed n = if ltb n (2 ^ 63) then to_text 10 n else b'-' ∷ to_text 10 (2 ^ 64 - n)

unfoldable pub print_header : DataHeader → List ℕ
print_header h =
    b'('
    ∷ (to_text 10 h.id
        ++ (codes ", "
            ++ (to_text 10 (type_code h.type)
                ++ (codes ", 0x"
                    ++ (set_width 4 (to_text 16 h.body_size)
                        ++ (codes ", " ++ (print_signed h.timestamp ++ codes ")")))))))

-- The visitor that prints the object of a message, behind the name of its class.
unfoldable pub print_object : DataObject → List ℕ
unfolding print_symbol print_binary
print_object (ping_object p) = codes "Ping" ++ print_ping
print_object (symbol_object s) = codes "JavaSymbol" ++ print_symbol s
print_object (binary_object d) = codes "BinaryData" ++ print_binary d
