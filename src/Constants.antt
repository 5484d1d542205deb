-- ===== src/Constants.antt =====
-- constants.h: paths, the protocol version, request and response codes.
use defensive_systems_open_u.Prelude.{ℕ, Bytes, codes}

abbrev pub clients_base_path : Bytes
clients_base_path = codes "/Users/erez/Desktop/defensive_prog_lab/c++/defensive_maman_15/"

abbrev pub protocol_version : ℕ
protocol_version = b'3'

abbrev pub private_key_file : Bytes
private_key_file = codes "priv.key"

abbrev pub me_info_file_name : Bytes
me_info_file_name = codes "me.info"

abbrev pub transfer_info_file_name : Bytes
transfer_info_file_name = codes "transfer.info"

-- `ServerRequests::Codes`
abbrev pub registration : ℕ
registration = 1025

abbrev pub send_public_key : ℕ
send_public_key = 1026

abbrev pub reconnect : ℕ
reconnect = 1027

abbrev pub send_file : ℕ
send_file = 1028

abbrev pub crc_correct : ℕ
crc_correct = 1029

abbrev pub crc_incorrect_resend : ℕ
crc_incorrect_resend = 1030

abbrev pub crc_incorrect_done : ℕ
crc_incorrect_done = 1031

abbrev pub name_field_size : ℕ
name_field_size = 255

-- `ServerResponses`
abbrev pub registration_success : ℕ
registration_success = 2100

abbrev pub registration_failed : ℕ
registration_failed = 2101

abbrev pub received_public_key_send_aes : ℕ
received_public_key_send_aes = 2102

abbrev pub file_received_crc_ok : ℕ
file_received_crc_ok = 2103

abbrev pub confirm_msg : ℕ
confirm_msg = 2104

abbrev pub approve_reconnect_send_aes : ℕ
approve_reconnect_send_aes = 2105

abbrev pub reconnect_rejected : ℕ
reconnect_rejected = 2106
