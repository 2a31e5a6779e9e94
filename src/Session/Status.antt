-- ===== src/Session/Status.antt =====
-- The text that send_status in session.cpp writes, and send_429 and serve_metrics in main.cpp.
use aegis_proxy.Common.{ℕ, ◌++◌, length}
use aegis_proxy.Text.{Bytes, bytes, to_string}

-- The head of a response, by its code, its reason, the type and the size of its body.
unfoldable pub response_head : ℕ → Bytes → Bytes → ℕ → Bytes
response_head code reason kind size =
    bytes "HTTP/1.1 "
    ++ (to_string code
        ++ (bytes " "
            ++ (reason
                ++ (bytes "\r\nContent-Type: "
                    ++ (kind
                        ++ (bytes "\r\nContent-Length: "
                            ++ (to_string size ++ bytes "\r\nConnection: close\r\n\r\n")))))))

unfoldable pub response_text : ℕ → Bytes → Bytes → Bytes → Bytes
unfolding response_head
response_text code reason kind body = response_head code reason kind (length body) ++ body

unfoldable pub status_text : ℕ → Bytes → Bytes → Bytes
unfolding response_text
status_text code reason body = response_text code reason (bytes "text/plain") body

abbrev pub unavailable : Bytes
unavailable = status_text 503 (bytes "Service Unavailable") (bytes "All backends unavailable\n")
