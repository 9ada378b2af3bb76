-- ===== src/Scripts/Seed/Questions.antt =====
-- scripts/seed.cpp: the questions that it seeds.
use network_final_project.Base.{String, List, [], ◌∷◌, ◌++◌}

pub record SeedQuestion : Type 0 where
  pub text : String
  pub options : List (String × String)
  pub correct : String
  pub difficulty : String
  pub topic : String

abbrev asks : String → List (String × String) → String → String → String → SeedQuestion
asks text options correct difficulty topic = record {
  text = text;
  options = options;
  correct = correct;
  difficulty = difficulty;
  topic = topic;
}

abbrev first_questions : List SeedQuestion
first_questions =
    asks "What is TCP used for?"
      (("A", "Connection-oriented reliable transport")
        ∷ ("B", "Connectionless unreliable transport")
        ∷ ("C", "Routing decisions")
        ∷ ("D", "Link-layer framing")
        ∷ [])
      "A" "EASY" "Networking"
    ∷ asks "Which layer handles end-to-end reliability?"
        (("A", "Application") ∷ ("B", "Transport") ∷ ("C", "Network") ∷ ("D", "Physical") ∷ []) "B"
        "EASY" "Networking"
    ∷ asks "What is a SYN flood?"
        (("A", "Authentication attack")
          ∷ ("B", "TCP connection exhaustion")
          ∷ ("C", "Buffer overflow")
          ∷ ("D", "DNS cache poisoning")
          ∷ [])
        "B" "MEDIUM" "Security"
    ∷ asks "Select the correct subnet mask for /27"
        (("A", "255.255.255.224")
          ∷ ("B", "255.255.255.240")
          ∷ ("C", "255.255.255.248")
          ∷ ("D", "255.255.255.192")
          ∷ [])
        "A" "MEDIUM" "IP"
    ∷ asks "Which algorithm is used in TLS for key exchange (commonly)?"
        (("A", "RSA") ∷ ("B", "Diffie-Hellman/ECDHE") ∷ ("C", "AES") ∷ ("D", "ChaCha") ∷ []) "B"
        "HARD" "Security"
    ∷ asks "Explain purpose of congestion control in TCP."
        (("A", "Detect bit errors")
          ∷ ("B", "Avoid overwhelming network paths")
          ∷ ("C", "Encrypt payload")
          ∷ ("D", "Assign IP addresses")
          ∷ [])
        "B" "HARD" "Networking"
    ∷ asks "What does DNS translate?"
        (("A", "IP to MAC") ∷ ("B", "Domain to IP") ∷ ("C", "MAC to IP") ∷ ("D", "URL to MAC") ∷ [])
        "B" "EASY" "DNS"
    ∷ asks "Default HTTP port?" (("A", "21") ∷ ("B", "53") ∷ ("C", "80") ∷ ("D", "110") ∷ []) "C"
        "EASY" "HTTP"
    ∷ asks "HTTPS adds which layer?"
        (("A", "TCP") ∷ ("B", "TLS") ∷ ("C", "IPSec") ∷ ("D", "SSH") ∷ []) "B" "EASY" "Security"
    ∷ asks "Which protocol is connectionless?"
        (("A", "TCP") ∷ ("B", "UDP") ∷ ("C", "SCTP") ∷ ("D", "HTTP") ∷ []) "B" "EASY" "Transport"
    ∷ asks "OSI layer for routing?"
        (("A", "Network") ∷ ("B", "Transport") ∷ ("C", "Link") ∷ ("D", "Application") ∷ []) "A"
        "EASY" "OSI"
    ∷ asks "ARP resolves?"
        (("A", "IP to MAC") ∷ ("B", "MAC to IP") ∷ ("C", "DNS to IP") ∷ ("D", "URL to MAC") ∷ [])
        "A" "EASY" "ARP"
    ∷ asks "ICMP is used for?"
        (("A", "Routing tables") ∷ ("B", "Diagnostics/Errors") ∷ ("C", "DHCP") ∷ ("D", "HTTP") ∷ [])
        "B" "EASY" "ICMP"
    ∷ asks "NAT main purpose?"
        (("A", "Encryption")
          ∷ ("B", "Port forwarding")
          ∷ ("C", "Address translation")
          ∷ ("D", "DHCP lease")
          ∷ [])
        "C" "EASY" "NAT"
    ∷ asks "Subnet /24 has how many usable hosts?"
        (("A", "254") ∷ ("B", "256") ∷ ("C", "512") ∷ ("D", "1022") ∷ []) "A" "EASY" "IP"
    ∷ asks "CIDR of 255.255.255.0?" (("A", "/16") ∷ ("B", "/24") ∷ ("C", "/25") ∷ ("D", "/26") ∷ [])
        "B" "EASY" "IP"
    ∷ asks "TCP three-way handshake order?"
        (("A", "SYN-ACK-SYN")
          ∷ ("B", "ACK-SYN-SYN")
          ∷ ("C", "SYN-SYN/ACK-ACK")
          ∷ ("D", "SYN-ACK-ACK")
          ∷ [])
        "C" "MEDIUM" "TCP"
    ∷ asks "What does RTT stand for?"
        (("A", "Round Trip Time")
          ∷ ("B", "Real Time Transfer")
          ∷ ("C", "Route Transit Time")
          ∷ ("D", "Random Transit Time")
          ∷ [])
        "A" "MEDIUM" "TCP"
    ∷ asks "Slow start does what?"
        (("A", "Increase cwnd exponentially")
          ∷ ("B", "Reduce RTT")
          ∷ ("C", "Encrypt segments")
          ∷ ("D", "Drop packets")
          ∷ [])
        "A" "MEDIUM" "TCP"
    ∷ asks "Window scaling used when?"
        (("A", "Small buffers")
          ∷ ("B", "High BDP links")
          ∷ ("C", "Short RTT")
          ∷ ("D", "UDP only")
          ∷ [])
        "B" "MEDIUM" "TCP"
    ∷ asks "DHCP handover uses which message first?"
        (("A", "DISCOVER") ∷ ("B", "OFFER") ∷ ("C", "REQUEST") ∷ ("D", "ACK") ∷ []) "A" "MEDIUM"
        "DHCP"
    ∷ asks "HTTPS default port?" (("A", "443") ∷ ("B", "8443") ∷ ("C", "22") ∷ ("D", "8080") ∷ [])
        "A" "MEDIUM" "HTTP"
    ∷ asks "REST typically uses?"
        (("A", "SOAP") ∷ ("B", "HTTP verbs + JSON") ∷ ("C", "FTP") ∷ ("D", "MQTT") ∷ []) "B"
        "MEDIUM" "HTTP"
    ∷ asks "CDN stands for?"
        (("A", "Content Delivery Network")
          ∷ ("B", "Control Data Node")
          ∷ ("C", "Cache Delivery Node")
          ∷ ("D", "Content Data Network")
          ∷ [])
        "A" "MEDIUM" "Web"
    ∷ asks "AJAX allows?"
        (("A", "Page reload")
          ∷ ("B", "Async HTTP/JS")
          ∷ ("C", "Server push only")
          ∷ ("D", "Binary only")
          ∷ [])
        "B" "MEDIUM" "Web"
    ∷ []

abbrev further_questions : List SeedQuestion
further_questions =
    asks "WebSocket advantage?"
      (("A", "Stateless") ∷ ("B", "Full-duplex") ∷ ("C", "UDP only") ∷ ("D", "No handshake") ∷ [])
      "B" "MEDIUM" "Web"
    ∷ asks "TLS provides?"
        (("A", "Integrity + Confidentiality")
          ∷ ("B", "Routing")
          ∷ ("C", "Compression only")
          ∷ ("D", "DHCP lease")
          ∷ [])
        "A" "MEDIUM" "Security"
    ∷ asks "HSTS does what?"
        (("A", "Force HTTPS")
          ∷ ("B", "Disable TLS")
          ∷ ("C", "Allow only HTTP/1")
          ∷ ("D", "Disable cookies")
          ∷ [])
        "A" "MEDIUM" "Security"
    ∷ asks "Common DDoS vector?"
        (("A", "SYN flood") ∷ ("B", "DNS caching") ∷ ("C", "FTP bounce") ∷ ("D", "ARP reply") ∷ [])
        "A" "MEDIUM" "Security"
    ∷ asks "VPN tunnel encapsulates?"
        (("A", "IP in IP") ∷ ("B", "Only TCP") ∷ ("C", "Only UDP") ∷ ("D", "ICMP only") ∷ []) "A"
        "MEDIUM" "VPN"
    ∷ asks "BGP used for?"
        (("A", "Interior routing")
          ∷ ("B", "Exterior routing")
          ∷ ("C", "Link discovery")
          ∷ ("D", "HTTP proxy")
          ∷ [])
        "B" "HARD" "Routing"
    ∷ asks "OSPF uses what metric?"
        (("A", "Hop count")
          ∷ ("B", "Cost/ bandwidth")
          ∷ ("C", "Latency only")
          ∷ ("D", "Random")
          ∷ [])
        "B" "HARD" "Routing"
    ∷ asks "Spanning Tree prevents?"
        (("A", "Loops at L2")
          ∷ ("B", "BGP oscillation")
          ∷ ("C", "DHCP starvation")
          ∷ ("D", "SYN flood")
          ∷ [])
        "A" "HARD" "Switching"
    ∷ asks "What is MPLS label used for?"
        (("A", "Routing decision instead of IP lookup")
          ∷ ("B", "DNS caching")
          ∷ ("C", "TLS negotiation")
          ∷ ("D", "DHCP relay")
          ∷ [])
        "A" "HARD" "MPLS"
    ∷ asks "HTTP/2 key feature?"
        (("A", "Head-of-line blocking")
          ∷ ("B", "Multiplexing over one TCP")
          ∷ ("C", "Only text format")
          ∷ ("D", "No TLS")
          ∷ [])
        "B" "HARD" "HTTP"
    ∷ asks "QUIC built on?" (("A", "TCP") ∷ ("B", "UDP") ∷ ("C", "ICMP") ∷ ("D", "SCTP") ∷ []) "B"
        "HARD" "Transport"
    ∷ asks "Which is stateful firewall tracking?"
        (("A", "Connection table")
          ∷ ("B", "MAC learning")
          ∷ ("C", "DNS cache")
          ∷ ("D", "NAT pool")
          ∷ [])
        "A" "HARD" "Security"
    ∷ asks "JWT used for?"
        (("A", "Session token") ∷ ("B", "Routing") ∷ ("C", "ARP") ∷ ("D", "DNS") ∷ []) "A" "MEDIUM"
        "Web"
    ∷ asks "CSRF mitigated by?"
        (("A", "SameSite cookies") ∷ ("B", "ARP cache") ∷ ("C", "TTL") ∷ ("D", "RST packet") ∷ [])
        "A" "MEDIUM" "Security"
    ∷ asks "XSS mitigated by?"
        (("A", "Input validation + output encoding")
          ∷ ("B", "BGP")
          ∷ ("C", "SYN cookies")
          ∷ ("D", "MAC filtering")
          ∷ [])
        "A" "MEDIUM" "Security"
    ∷ asks "FTP active mode uses?"
        (("A", "PORT command, server connects back")
          ∷ ("B", "PASV only")
          ∷ ("C", "UDP")
          ∷ ("D", "SSH tunnel mandatory")
          ∷ [])
        "A" "MEDIUM" "FTP"
    ∷ asks "SMTP default port?" (("A", "25") ∷ ("B", "110") ∷ ("C", "143") ∷ ("D", "993") ∷ []) "A"
        "EASY" "SMTP"
    ∷ asks "IMAP secure port?" (("A", "433") ∷ ("B", "993") ∷ ("C", "995") ∷ ("D", "25") ∷ []) "B"
        "EASY" "Mail"
    ∷ asks "POP3 secure port?" (("A", "995") ∷ ("B", "993") ∷ ("C", "110") ∷ ("D", "25") ∷ []) "A"
        "EASY" "Mail"
    ∷ asks "DHCP assigns?"
        (("A", "MAC")
          ∷ ("B", "IP + mask + gateway + DNS")
          ∷ ("C", "TLS cert")
          ∷ ("D", "BGP ASN")
          ∷ [])
        "B" "EASY" "DHCP"
    ∷ asks "Traceroute uses?"
        (("A", "TTL expiration") ∷ ("B", "MAC flooding") ∷ ("C", "RST") ∷ ("D", "HSTS") ∷ []) "A"
        "EASY" "ICMP"
    ∷ asks "Ping uses?"
        (("A", "ICMP Echo") ∷ ("B", "UDP") ∷ ("C", "TCP SYN") ∷ ("D", "HTTP GET") ∷ []) "A" "EASY"
        "ICMP"
    ∷ asks "Link-local IPv6 prefix?"
        (("A", "fe80::/10") ∷ ("B", "ff00::/8") ∷ ("C", "2001::/16") ∷ ("D", "fc00::/7") ∷ []) "A"
        "MEDIUM" "IPv6"
    ∷ asks "IPv6 multicast prefix?"
        (("A", "ff00::/8") ∷ ("B", "fe80::/10") ∷ ("C", "2001::/16") ∷ ("D", "fc00::/7") ∷ []) "A"
        "MEDIUM" "IPv6"
    ∷ asks "Private IPv4 ranges?"
        (("A", "10.0.0.0/8, 172.16.0.0/12, 192.168.0.0/16")
          ∷ ("B", "8.8.8.0/24")
          ∷ ("C", "1.1.1.0/24")
          ∷ ("D", "100.64.0.0/10")
          ∷ [])
        "A" "EASY" "IP"
    ∷ asks "What is MTU?"
        (("A", "Max Transmission Unit")
          ∷ ("B", "Min Transfer Unit")
          ∷ ("C", "Media Type Unit")
          ∷ ("D", "Multi Transfer Unit")
          ∷ [])
        "A" "EASY" "Link"
    ∷ asks "Jumbo frame size approx?"
        (("A", "9000 bytes") ∷ ("B", "1500 bytes") ∷ ("C", "64 bytes") ∷ ("D", "4096 bytes") ∷ [])
        "A" "MEDIUM" "Link"
    ∷ asks "VLAN trunk uses?"
        (("A", "802.1Q tag") ∷ ("B", "ARP") ∷ ("C", "ICMP") ∷ ("D", "RST") ∷ []) "A" "MEDIUM" "VLAN"
    ∷ asks "802.11 uses which band?"
        (("A", "2.4/5 GHz") ∷ ("B", "900 MHz only") ∷ ("C", "28 GHz") ∷ ("D", "60 GHz only") ∷ [])
        "A" "EASY" "WiFi"
    ∷ asks "Hidden SSID mitigates?"
        (("A", "Nothing significant")
          ∷ ("B", "All attacks")
          ∷ ("C", "WPA3 requirement")
          ∷ ("D", "DFS")
          ∷ [])
        "A" "MEDIUM" "WiFi"
    ∷ []

-- The vector `questions` of main.
unfoldable pub bank : List SeedQuestion
bank = first_questions ++ further_questions
