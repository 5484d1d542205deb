-- ===== src/Lib.antt =====
-- A model of the client of a file server, with the theorems that its parts meet.
--
-- The client (main.cpp) reads the server's address, the user's name and a file's path from
-- transfer.info, connects, and registers or reconnects; it makes an RSA key pair, receives an AES key
-- that is encrypted with it, sends the encrypted file, and compares the checksum that the server
-- computed with its own, sending the file up to three times.
--
--   Prelude      bytes, lists, text and Boolean tests over the native numbers
--   Runtime      what the program is run on: Exec (statements that return, throw or are undefined),
--                Os (the system calls, as parameters), Library (Crypto++, as parameters), World (a
--                run's state, with the list of what is seen from outside), Trace (how that list grows)
--   Buffer       memcpy, strncpy, strcpy and byte orders on buffers as lists of bytes
--   Checksum     checksum.cpp: crctab, memcrc (Checksum), readCrc (Checksum/File), readfile
--                (Checksum/Report), and an independent bit-by-bit description of a POSIX cksum
--                (Checksum/Cksum)
--   Constants    constants.h
--   Logger       Logger.cpp
--   FileHandler  FileHandler.cpp; std::stoi is in FileHandler/Number
--   Crypto       CryptoHandler.cpp (Crypto), AESWrapper.cpp (Crypto/Aes), RSAWrapper.cpp and
--                Base64Wrapper.cpp (Crypto/Rsa; the overloads over a pointer and a length
--                are in Crypto/Rsa/Pointers)
--   Protocol     ProtocolHandler.cpp: Message (Request, Response and their bytes), Connection
--                (handleConnection, sendRequest, safeReceive, getResponse), Payload (the payloads),
--                Upload (sendCRCStatusRequest, handleRetrySendFile, handleFileEncryptionAndSend), Flow
--                (handleConnectionRequest, handleRSARegistration, handleRegistration,
--                handleReconnection). Protocol/Order is the order of requests that the protocol
--                allows, as an automaton, and the rules by which the flows are carried along it.
--                Protocol/Success/Server is the protocol from the server's side: what a server that
--                serves does with each request, in the sessions fresh, known, registered, keyed,
--                received and done; the other modules of Protocol/Success run the flows against it,
--                and Refusal runs the upload against a server whose checksums are wrong. Upload/Short
--                and Upload/Unreadable follow it where the checksum is cut off, and where the file
--                cannot be opened any more. Protocol/Quiet has the operations of which only text is
--                seen; Protocol/Events is what a run may show to the outside, with the conversations
--                that it consists of in Events/Conversation, and Protocol/Defined follows the accesses
--                to buffers. Message/Wire is a request up to what its receiver cannot see, as a
--                quotient.
--   Main         handleClient and main; Main/Uploaded follows a run to the upload that ends it
--   Tests        runs on a scripted server, and the theorems at concrete inputs
--
-- A C++ function of the source is a function in the monad of Runtime/Exec: it maps a World to a
-- result and a World. A result is a value, a thrown exception with its class and its text, or `fault`,
-- which stands for undefined behaviour: an access outside of a buffer, or memcrc's int index that
-- overflows. What was done before an exception stays done. Names are the source's in snake case:
-- handleRetrySendFile is handle_retry_send_file.
--
-- The state of the system is abstract, and nothing is assumed of its calls but what a theorem's
-- hypotheses say: any server, network and file system is covered, partial receives and failing calls
-- included. Of Crypto++ a theorem may ask for the laws of Library.IsLawful. Uninitialised memory is
-- what Os.garbage returns. The host is little-endian, with 8 bytes to a long and a pointer, as the
-- struct layouts of the source suppose; an integer's wrap-around is written out as a remainder.
--
-- Fuel: the loop over the octets of a length gets nine rounds, since a size_t has eight octets, and
-- AESWrapper::GenerateKey gets one more round than the key has bytes, of which each round takes four.
-- The other loops run over a list or a number of rounds that is given: maxRetries, an int of which the
-- only call passes 3, is a natural number.
--
-- A run that is to succeed needs a server, and the server is not part of the program: IsServer in
-- Protocol/Success/Server says what is asked of it, over the requests as their receiver finds them, and
-- of the machine (the file can be read, the two key files can be written, a reply arrives in two calls
-- of recv). Tests/Server has a server that meets it, and Tests/Runs whole runs against it.
--
-- Not modelled: other kinds of undefined behaviour. Where the header of a reply does not arrive,
-- getResponse returns fields that it never set, and its callers branch on them: they are taken here to
-- be the values that the memory held. The payload buffer of getResponse is an array whose size the
-- server chooses, and its exhaustion of the stack is no event of a run; getResponse and
-- handleRetrySendFile read integers through pointers that need not be aligned, which is taken to
-- work. Nor are failed allocations modelled, nor errors of a file stream after it was opened, which
-- the source does not look at. The destination of std::cout and std::cerr is the list of events.
pub mod Prelude
pub mod Checksum
pub mod Runtime
pub mod Logger
pub mod Buffer
pub mod Constants
pub mod FileHandler
pub mod Crypto
pub mod Protocol
pub mod Main
pub mod Tests
