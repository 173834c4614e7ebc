-- ===== src/Proxy/Head/Tests.antt =====
-- A request head off a connection, a path, and a wait that is over.
use maestro_llamacpp.Common.{ℕ, Option, some, List, [], ◌∷◌, ◌≡◌, refl}
use maestro_llamacpp.Common.Text.{
  Text, codes, text_eq, trim_end_by, trim_start_by, split_once, strip_prefix,
}
use maestro_llamacpp.Proxy.Endpoint.{
  Answer, answered, dedicated, endpoint_of, dedicated_of, without_slashes,
}
use maestro_llamacpp.Proxy.Endpoint.Routing.{Names, endpoint_of-Names}
use maestro_llamacpp.Proxy.Head.Read.{
  closed, Connection, read, read_from, look, look_line, look_text, take_line,
}
use maestro_llamacpp.Proxy.Head.Read.Bounds.{AnswerWithin, read-AnswerWithin}

abbrev a_path : Text
a_path = codes "/models/qwen/v1/chat"

a_path_routed : endpoint_of a_path ≡ answered (dedicated (codes "qwen") (codes "/v1/chat"))
unfolding endpoint_of dedicated_of without_slashes trim_end_by trim_start_by strip_prefix split_once
    text_eq codes
a_path_routed = refl

endpoint_of-Names_example : Names a_path (dedicated (codes "qwen") (codes "/v1/chat"))
endpoint_of-Names_example =
    endpoint_of-Names a_path (dedicated (codes "qwen") (codes "/v1/chat")) a_path_routed

-- A head that every byte of is text.
abbrev a_connection : Connection
a_connection = record { bytes = codes "GET /v1/models\r\nA: b\r\n\r\nbody"; ending = closed }

abbrev ascii : List ℕ → Option Text
ascii bytes = some bytes

reads_head :
    read ascii [] a_connection
    ≡ some (answered (codes "GET /v1/models" ∷ codes "A: b" ∷ [], codes "body"))
unfolding read read_from look look_line look_text take_line trim_end_by trim_start_by codes
reads_head = refl

read-AnswerWithin_example :
    (answer : Answer (List Text × List ℕ)) × (read ascii [] a_connection ≡ some answer)
    × AnswerWithin 0 a_connection.bytes (some answer)
read-AnswerWithin_example = read-AnswerWithin ascii [] a_connection
