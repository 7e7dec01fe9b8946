-- ===== src/Error/Table.antt =====
-- src/error.rs: the list of known ADS error codes, `ADS_ERRORS`.
use openstar_ads.Common.{ℕ, String, List, [], ◌∷◌}

abbrev pub ads_errors : List (ℕ × String)
ads_errors =
    (0x001, "Internal error")
    ∷ (0x002, "No real-time")
    ∷ (0x003, "Allocation locked - memory error")
    ∷ (0x004, "Mailbox full - ADS message could not be sent")
    ∷ (0x005, "Wrong receive HMSG")
    ∷ (0x006, "Target port not found, possibly ADS server not started")
    ∷ (0x007, "Target machine not found, possibly missing ADS routes")
    ∷ (0x008, "Unknown command ID")
    ∷ (0x009, "Invalid task ID")
    ∷ (0x00a, "No IO")
    ∷ (0x00b, "Unknown AMS command")
    ∷ (0x00c, "Win32 error")
    ∷ (0x00d, "Port not connected")
    ∷ (0x00e, "Invalid AMS length")
    ∷ (0x00f, "Invalid AMS NetID")
    ∷ (0x010, "Low installation level")
    ∷ (0x011, "No debugging available")
    ∷ (0x012, "Port disabled - system service not started")
    ∷ (0x013, "Port already connected")
    ∷ (0x014, "AMS Sync Win32 error")
    ∷ (0x015, "AMS Sync timeout")
    ∷ (0x016, "AMS Sync error")
    ∷ (0x017, "AMS Sync no index map")
    ∷ (0x018, "Invalid AMS port")
    ∷ (0x019, "No memory")
    ∷ (0x01a, "TCP send error")
    ∷ (0x01b, "Host unreachable")
    ∷ (0x01c, "Invalid AMS fragment")
    ∷ (0x01d, "TLS send error - secure ADS connection failed")
    ∷ (0x01e, "Access denied - secure ADS access denied")
    ∷ (0x500, "Router: no locked memory")
    ∷ (0x501, "Router: memory size could not be changed")
    ∷ (0x502, "Router: mailbox full")
    ∷ (0x503, "Router: debug mailbox full")
    ∷ (0x504, "Router: port type is unknown")
    ∷ (0x505, "Router is not initialized")
    ∷ (0x506, "Router: desired port number is already assigned")
    ∷ (0x507, "Router: port not registered")
    ∷ (0x508, "Router: maximum number of ports reached")
    ∷ (0x509, "Router: port is invalid")
    ∷ (0x50a, "Router is not active")
    ∷ (0x50b, "Router: mailbox full for fragmented messages")
    ∷ (0x50c, "Router: fragment timeout occurred")
    ∷ (0x50d, "Router: port removed")
    ∷ (0x700, "General device error")
    ∷ (0x701, "Service is not supported by server")
    ∷ (0x702, "Invalid index group")
    ∷ (0x703, "Invalid index offset")
    ∷ (0x704, "Reading/writing not permitted")
    ∷ (0x705, "Parameter size not correct")
    ∷ (0x706, "Invalid parameter value(s)")
    ∷ (0x707, "Device is not in a ready state")
    ∷ (0x708, "Device is busy")
    ∷ (0x709, "Invalid OS context -> use multi-task data access")
    ∷ (0x70a, "Out of memory")
    ∷ (0x70b, "Invalid parameter value(s)")
    ∷ (0x70c, "Not found (files, ...)")
    ∷ (0x70d, "Syntax error in command or file")
    ∷ (0x70e, "Objects do not match")
    ∷ (0x70f, "Object already exists")
    ∷ (0x710, "Symbol not found")
    ∷ (0x711, "Symbol version invalid -> create a new handle")
    ∷ (0x712, "Server is in an invalid state")
    ∷ (0x713, "AdsTransMode not supported")
    ∷ (0x714, "Notification handle is invalid")
    ∷ (0x715, "Notification client not registered")
    ∷ (0x716, "No more notification handles")
    ∷ (0x717, "Notification size too large")
    ∷ (0x718, "Device not initialized")
    ∷ (0x719, "Device has a timeout")
    ∷ (0x71a, "Query interface failed")
    ∷ (0x71b, "Wrong interface required")
    ∷ (0x71c, "Class ID is invalid")
    ∷ (0x71d, "Object ID is invalid")
    ∷ (0x71e, "Request is pending")
    ∷ (0x71f, "Request is aborted")
    ∷ (0x720, "Signal warning")
    ∷ (0x721, "Invalid array index")
    ∷ (0x722, "Symbol not active -> release handle and try again")
    ∷ (0x723, "Access denied")
    ∷ (0x724, "No license found -> activate license")
    ∷ (0x725, "License expired")
    ∷ (0x726, "License exceeded")
    ∷ (0x727, "License invalid")
    ∷ (0x728, "Invalid system ID in license")
    ∷ (0x729, "License not time limited")
    ∷ (0x72a, "License issue time in the future")
    ∷ (0x72b, "License time period too long")
    ∷ (0x72c, "Exception in device specific code -> check each device")
    ∷ (0x72d, "License file read twice")
    ∷ (0x72e, "Invalid signature")
    ∷ (0x72f, "Invalid public key certificate")
    ∷ (0x730, "Public key not known from OEM")
    ∷ (0x731, "License not valid for this system ID")
    ∷ (0x732, "Demo license prohibited")
    ∷ (0x733, "Invalid function ID")
    ∷ (0x734, "Outside the valid range")
    ∷ (0x735, "Invalid alignment")
    ∷ (0x736, "Invalid platform level")
    ∷ (0x737, "Context - forward to passive level")
    ∷ (0x738, "Content - forward to dispatch level")
    ∷ (0x739, "Context - forward to real-time")
    ∷ (0x740, "General client error")
    ∷ (0x741, "Invalid parameter at service")
    ∷ (0x742, "Polling list is empty")
    ∷ (0x743, "Var connection already in use")
    ∷ (0x744, "Invoke ID in use")
    ∷ (0x745, "Timeout elapsed -> check route setting")
    ∷ (0x746, "Error in Win32 subsystem")
    ∷ (0x747, "Invalid client timeout value")
    ∷ (0x748, "ADS port not opened")
    ∷ (0x749, "No AMS address")
    ∷ (0x750, "Internal error in ADS sync")
    ∷ (0x751, "Hash table overflow")
    ∷ (0x752, "Key not found in hash")
    ∷ (0x753, "No more symbols in cache")
    ∷ (0x754, "Invalid response received")
    ∷ (0x755, "Sync port is locked")
    ∷ (0x1000, "Internal error in real-time system")
    ∷ (0x1001, "Timer value not valid")
    ∷ (0x1002, "Task pointer has invalid value 0")
    ∷ (0x1003, "Stack pointer has invalid value 0")
    ∷ (0x1004, "Requested task priority already assigned")
    ∷ (0x1005, "No free Task Control Block")
    ∷ (0x1006, "No free semaphores")
    ∷ (0x1007, "No free space in the queue")
    ∷ (0x100d, "External sync interrupt already applied")
    ∷ (0x100e, "No external sync interrupt applied")
    ∷ (0x100f, "External sync interrupt application failed")
    ∷ (0x1010, "Call of service function in wrong context")
    ∷ (0x1017, "Intel VT-x not supported")
    ∷ (0x1018, "Intel VT-x not enabled in BIOS")
    ∷ (0x1019, "Missing function in Intel VT-x")
    ∷ (0x101a, "Activation of Intel VT-x failed")
    ∷ []
